-- ===== src/Jwe/Json/Recipients.antt =====
-- What the JSON serialization of jwe/serialization.go does with the recipients.
use golang_jwt_ci_test.Prelude.{
  ◌≡◌, refl, subst, ap, not, ◌&&◌, ◌||◌, Option, none, some, List, [], ◌∷◌, arith, Octets, is_empty,
}
use golang_jwt_ci_test.Errors.{Error, Result, ok, err, guard, >>=-eq_ok, from_ok, malformed_message}
use golang_jwt_ci_test.Header.Fields.{Header}
use golang_jwt_ci_test.Header.Codec.{Text}
use golang_jwt_ci_test.Header.Codec
use golang_jwt_ci_test.Header.RoundTrip.{empty}
use golang_jwt_ci_test.Jwe.Message.{Recipient, Message}
use golang_jwt_ci_test.Jwe.Decryption.{malformed_or}
use golang_jwt_ci_test.Jwe.Compact.{decode_octets}
use golang_jwt_ci_test.Jwe.Json.{
  RawRecipient, RawMessage, Json, recipient_with, recipient_given, decode_recipient,
  encode_recipient_header, read_shared, read_protected, read_aad, read_recipients, given_recipients,
  unmarshal_json,
}

-- Each entry of the document gives its recipient, in the order of the document.
pub data Decoded (t : Text) : List (Option RawRecipient) → List (Option Recipient) → Type 0 where
  nil : Decoded t [] []
  cons :
      {raw : RawRecipient} {r : Recipient} {raws : List (Option RawRecipient)}
      {rs : List (Option Recipient)}
      → decode_recipient t raw ≡ ok r
      → Decoded t raws rs
      → Decoded t (some raw ∷ raws) (some r ∷ rs)

module _ (t : Text) where
  pub read_recipients-Decoded :
      (raws : List (Option RawRecipient)) {rs : List (Option Recipient)}
      → read_recipients t raws ≡ ok rs
      → Decoded t raws rs
  unfolding read_recipients
  read_recipients-Decoded [] h = subst (Decoded t []) (from_ok h) nil
  read_recipients-Decoded (none ∷ rest) h = absurd (cc)
  read_recipients-Decoded (some raw ∷ rest) h =
      let (r, decoded, h1) = >>=-eq_ok (decode_recipient t raw) _ h in
      let (others, found, h2) = >>=-eq_ok (read_recipients t rest) _ h1 in
      subst (Decoded t (some raw ∷ rest)) (from_ok h2)
        (cons decoded (read_recipients-Decoded rest found))

  recipient_with-kept :
      (key json : Octets) (read : Result Header) {r : Recipient} {e : Error}
      → recipient_with t key json read ≡ ok r
      → r.unsupported ≡ some e
      → (r.raw_header ≡ json) × (read ≡ err e)
  recipient_with-kept key json (ok h) read kept = absurd (cc)
  recipient_with-kept key json (err failure) read kept = ground (arith, read, kept)

  recipient_given-kept :
      (key json : Octets) {r : Recipient} {e : Error}
      → recipient_given t key json ≡ ok r
      → r.unsupported ≡ some e
      → (r.raw_header ≡ json) × (Codec.unmarshal_json t empty json ≡ err e)
  recipient_given-kept key [] read kept = absurd (cc)
  recipient_given-kept key (x ∷ xs) read kept =
      recipient_with-kept key (x ∷ xs) (Codec.unmarshal_json t empty (x ∷ xs)) read kept

  -- A recipient that is kept although it is unsupported has a header that could not be read, with the
  -- error that the recipient holds, and that header is written back octet for octet.
  pub encode_recipient_header-decode_recipient :
      (raw : RawRecipient) {r : Recipient} {e : Error}
      → decode_recipient t raw ≡ ok r
      → r.unsupported ≡ some e
      → (encode_recipient_header t r ≡ ok raw.header)
        × (Codec.unmarshal_json t empty raw.header ≡ err e)
  unfolding decode_recipient encode_recipient_header
  encode_recipient_header-decode_recipient raw {r} {e} h kept =
      let (key, decoded, h1) = >>=-eq_ok (malformed_or (decode_octets raw.encrypted_key)) _ h in
      let (same, unread) = recipient_given-kept key raw.header h1 kept in
      (rw (kept, same) refl, unread)

  -- A message that UnmarshalJSON reads has the recipients of the document, in its order; those of the
  -- array, or, where there is none, the one recipient of the object.
  pub unmarshal_json-Decoded :
      (json : Json) (octets : Octets) {m : Message}
      → unmarshal_json t json octets ≡ ok m
      → (raw : RawMessage) × (json.read octets ≡ ok raw)
        × Decoded t (given_recipients t raw) m.recipients
  unfolding unmarshal_json
  unmarshal_json-Decoded json octets h =
      let (raw, found, h1) = >>=-eq_ok (json.read octets) _ h in
      let (shared, q1, h2) = >>=-eq_ok (read_shared t raw.shared_header) _ h1 in
      let (u, q2, h3) =
        >>=-eq_ok
          (guard
            (not (
              not (is_empty raw.recipients)
              && (not (is_empty raw.encrypted_key) || not (is_empty raw.header))))
            (malformed_message ∷ []))
          _ h2 in
      let (protected, q3, h4) = >>=-eq_ok (read_protected t raw.protected_header) _ h3 in
      let (iv, q4, h5) = >>=-eq_ok (malformed_or (decode_octets raw.initialization_vector)) _ h4 in
      let (ct, q5, h6) = >>=-eq_ok (malformed_or (decode_octets raw.ciphertext)) _ h5 in
      let (tag, q6, h7) = >>=-eq_ok (malformed_or (decode_octets raw.authentication_tag)) _ h6 in
      let (aad, q7, h8) = >>=-eq_ok (read_aad t raw.additional_authenticated_data) _ h7 in
      let (rs, read, h9) = >>=-eq_ok (read_recipients t (given_recipients t raw)) _ h8 in
      let same = ap (λ m. m.recipients) (from_ok h9) in
      (raw, found, subst (Decoded t (given_recipients t raw)) same (read_recipients-Decoded _ read))
