-- ===== src/Jwe/Compact.antt =====
-- The compact serialization of jwe/serialization.go: Marshal and Unmarshal.
pub mod RoundTrip
mod Tests
use golang_jwt_ci_test.Prelude.{
  ◌≡◌, Bool, true, false, not, Option, none, some, List, [], ◌∷◌, ◌++◌, Octets, ◌==◌, nat_same,
  list_same, if◌then◌else◌,
}
use golang_jwt_ci_test.Prelude.Dots.{dot, count_dots, cut}
use golang_jwt_ci_test.Errors.{
  Result, Error, ok, err, ◌>>=◌, ◌>>◌, guard, or_fail, malformed_message,
}
use golang_jwt_ci_test.Base64Url
use golang_jwt_ci_test.Header.Fields.{Header}
use golang_jwt_ci_test.Header.Codec.{Text}
use golang_jwt_ci_test.Header.Codec
use golang_jwt_ci_test.Header.Members.{is_zero}
use golang_jwt_ci_test.Header.RoundTrip.{empty}
use golang_jwt_ci_test.Jwe.Message.{Recipient, Message, absent}
use golang_jwt_ci_test.Jwe.Decryption.{malformed_or}

-- encodeOctets; decodeOctets gives an empty slice for the empty text, as Decode does.
unfoldable pub encode_octets : Octets → Octets
encode_octets octets = Base64Url.encode octets

unfoldable pub decode_octets : Octets → Result Octets
decode_octets encoded = if encoded == [] then ok [] else Base64Url.decode encoded

unfoldable pub join_parts : Octets → Octets → Octets → Octets → Octets → Octets
join_parts a b c d e = a ++ dot ∷ (b ++ dot ∷ (c ++ dot ∷ (d ++ dot ∷ e)))

module _ (t : Text) where
  -- A header that is not nil and writes a member.
  unfoldable pub holds_header : Option Header → Bool
  holds_header none = false
  holds_header (some h) = not (is_zero t h)

  unfoldable pub marshal_one : Message → Option Recipient → Result Octets
  marshal_one m none = err (malformed_message ∷ [])
  marshal_one m (some r) = do
    guard (not (holds_header r.header)) (malformed_message ∷ [])
    guard (not (holds_header m.shared_header)) (malformed_message ∷ [])
    guard (absent m.additional_authenticated_data) (malformed_message ∷ [])
    -- Go panics on a nil protected header; here it is an error.
    protected_header ← or_fail m.protected_header (malformed_message ∷ [])
    encoded_protected_header ← Codec.marshal t protected_header
    ok (
        join_parts encoded_protected_header (encode_octets r.encrypted_key)
          (encode_octets m.initialization_vector) (encode_octets m.ciphertext)
          (encode_octets m.authentication_tag))

  unfoldable pub marshal_recipients : Message → List (Option Recipient) → Result Octets
  marshal_recipients m [] = err (malformed_message ∷ [])
  marshal_recipients m (r ∷ []) = marshal_one m r
  marshal_recipients m (a ∷ b ∷ rest) = err (malformed_message ∷ [])

  unfoldable pub marshal : Message → Result Octets
  marshal m = marshal_recipients m m.recipients

  unfoldable pub unmarshal_parts : Octets → Octets → Octets → Octets → Octets → Result Message
  unmarshal_parts a b c d e = do
    protected_header ← Codec.unmarshal t empty a
    encrypted_key ← malformed_or (decode_octets b)
    initialization_vector ← malformed_or (decode_octets c)
    ciphertext ← malformed_or (decode_octets d)
    authentication_tag ← malformed_or (decode_octets e)
    ok (record {
      protected_header = some protected_header;
      shared_header = none;
      recipients =
          some (record {
            header = none;
            encrypted_key = encrypted_key;
            raw_header = [];
            unsupported = none;
          })
          ∷ [];
      initialization_vector = initialization_vector;
      ciphertext = ciphertext;
      authentication_tag = authentication_tag;
      additional_authenticated_data = none;
    })

  unfoldable pub unmarshal : Octets → Result Message
  unmarshal encoded =
      let (a, rest1) = cut encoded in
      let (b, rest2) = cut rest1 in
      let (c, rest3) = cut rest2 in
      let (d, e) = cut rest3 in
      do guard (count_dots encoded == 4) (malformed_message ∷ []); unmarshal_parts a b c d e
