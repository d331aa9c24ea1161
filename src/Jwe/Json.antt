-- ===== src/Jwe/Json.antt =====
-- The JSON serialization of jwe/serialization.go: MarshalJSON and UnmarshalJSON. The JSON object of a
-- rawMessage is a parameter; a header in it is a JSON text, which the functions of the header package
-- read and write. An omitted text is empty.
pub mod Recipients
mod Tests
use golang_jwt_ci_test.Prelude.{
  ◌≡◌, Bool, true, false, not, ◌&&◌, ◌||◌, Option, none, some, List, [], ◌∷◌, Octets, ◌==◌,
  nat_same, list_same, contains_func, is_empty, if◌then◌else◌,
}
use golang_jwt_ci_test.Errors.{
  Result, Error, ok, err, ◌>>=◌, ◌>>◌, guard, or_fail, malformed_message, is_unsupported_algorithm,
}
use golang_jwt_ci_test.Header.Fields.{Header}
use golang_jwt_ci_test.Header.Codec.{Text}
use golang_jwt_ci_test.Header.Codec
use golang_jwt_ci_test.Header.Members.{is_zero}
use golang_jwt_ci_test.Header.RoundTrip.{empty}
use golang_jwt_ci_test.Jwe.Message.{Recipient, Message}
use golang_jwt_ci_test.Jwe.Decryption.{malformed_or, contents}
use golang_jwt_ci_test.Jwe.Compact.{encode_octets, decode_octets}

pub record RawRecipient : Type 0 where
  pub header : Octets
  pub encrypted_key : Octets

pub record RawMessage : Type 0 where
  pub protected_header : Octets
  pub shared_header : Option Octets
  pub recipients : List (Option RawRecipient)
  pub header : Octets
  pub encrypted_key : Octets
  pub additional_authenticated_data : Octets
  pub initialization_vector : Octets
  pub ciphertext : Octets
  pub authentication_tag : Octets

-- json.Marshal and json.Unmarshal at a rawMessage.
pub record Json : Type 0 where
  pub write : RawMessage → Octets
  pub read : Octets → Result RawMessage

module _ (t : Text) where
  abbrev pub recipient_with : Octets → Octets → Result Header → Result Recipient
  recipient_with encrypted_key json (ok h) = ok (record {
    header = some h;
    encrypted_key = encrypted_key;
    raw_header = [];
    unsupported = none;
  })
  recipient_with encrypted_key json (err e) =
      if not (contains_func is_unsupported_algorithm e)
      then err e
      else ok (record {
        header = none;
        encrypted_key = encrypted_key;
        raw_header = json;
        unsupported = some e;
      })

  abbrev pub recipient_given : Octets → Octets → Result Recipient
  recipient_given encrypted_key json =
      if is_empty json
      then ok (record {
        header = none;
        encrypted_key = encrypted_key;
        raw_header = [];
        unsupported = none;
      })
      else recipient_with encrypted_key json (Codec.unmarshal_json t empty json)

  unfoldable pub decode_recipient : RawRecipient → Result Recipient
  decode_recipient raw = do
    encrypted_key ← malformed_or (decode_octets raw.encrypted_key)
    recipient_given encrypted_key raw.header

  abbrev pub encode_header : Option Header → Result Octets
  encode_header none = ok []
  encode_header (some h) = if is_zero t h then ok [] else Codec.marshal_json t h

  unfoldable pub encode_recipient_header : Recipient → Result Octets
  encode_recipient_header r = elim r.unsupported [
    | some e ↦ ok r.raw_header
    | none ↦ encode_header r.header
  ]

  abbrev pub raw_recipient : Option Recipient → Result RawRecipient
  raw_recipient none = err (malformed_message ∷ [])
  raw_recipient (some r) = do
    recipient_header ← encode_recipient_header r
    ok (record { header = recipient_header; encrypted_key = encode_octets r.encrypted_key })

  -- The loop of MarshalJSON over the recipients.
  unfoldable pub raw_recipients : List (Option Recipient) → Result (List (Option RawRecipient))
  raw_recipients [] = ok []
  raw_recipients (r ∷ rest) = do
    raw ← raw_recipient r
    others ← raw_recipients rest
    ok (some raw ∷ others)

  -- One recipient moves up into the object.
  abbrev pub hoisted : RawMessage → List (Option RawRecipient) → RawMessage
  hoisted raw (some r ∷ []) = record raw { header = r.header; encrypted_key = r.encrypted_key }
  hoisted raw rs = record raw { recipients = rs }

  -- The "unprotected" member, which omitzero leaves out.
  abbrev pub shared_member : Option Header → Result (Option Octets)
  shared_member none = ok none
  shared_member (some h) =
      if is_zero t h then ok none else do json ← Codec.marshal_json t h; ok (some json)

  -- Go panics on a nil protected header; here it is an error.
  unfoldable pub marshal_json : Json → Message → Result Octets
  marshal_json json m = do
    guard (not (is_empty m.recipients)) (malformed_message ∷ [])
    protected_header ← or_fail m.protected_header (malformed_message ∷ [])
    encoded_protected_header ← Codec.marshal t protected_header
    recipients ← raw_recipients m.recipients
    shared_header ← shared_member m.shared_header
    let raw : RawMessage = record {
      protected_header = encoded_protected_header;
      shared_header = shared_header;
      recipients = [];
      header = [];
      encrypted_key = [];
      additional_authenticated_data = encode_octets (contents m.additional_authenticated_data);
      initialization_vector = encode_octets m.initialization_vector;
      ciphertext = encode_octets m.ciphertext;
      authentication_tag = encode_octets m.authentication_tag;
    }
    ok (json.write (hoisted raw recipients))

  abbrev pub read_shared : Option Octets → Result (Option Header)
  read_shared none = ok none
  read_shared (some json) = do h ← Codec.unmarshal_json t empty json; ok (some h)

  abbrev pub read_protected : Octets → Result Header
  read_protected encoded = if is_empty encoded then ok empty else Codec.unmarshal t empty encoded

  abbrev pub read_aad : Octets → Result (Option Octets)
  read_aad encoded =
      if is_empty encoded
      then ok none
      else do aad ← malformed_or (decode_octets encoded); ok (some aad)

  -- The loop of UnmarshalJSON over the recipients.
  unfoldable pub read_recipients : List (Option RawRecipient) → Result (List (Option Recipient))
  read_recipients [] = ok []
  read_recipients (none ∷ rest) = err (malformed_message ∷ [])
  read_recipients (some raw ∷ rest) = do
    r ← decode_recipient raw
    others ← read_recipients rest
    ok (some r ∷ others)

  abbrev pub given_recipients : RawMessage → List (Option RawRecipient)
  given_recipients raw =
      if is_empty raw.recipients
      then some (record { header = raw.header; encrypted_key = raw.encrypted_key }) ∷ []
      else raw.recipients

  unfoldable pub unmarshal_json : Json → Octets → Result Message
  unmarshal_json json octets = do
    raw ← json.read octets
    shared_header ← read_shared raw.shared_header
    guard
        (not (
          not (is_empty raw.recipients)
          && (not (is_empty raw.encrypted_key) || not (is_empty raw.header))))
        (malformed_message ∷ [])
    protected_header ← read_protected raw.protected_header
    initialization_vector ← malformed_or (decode_octets raw.initialization_vector)
    ciphertext ← malformed_or (decode_octets raw.ciphertext)
    authentication_tag ← malformed_or (decode_octets raw.authentication_tag)
    aad ← read_aad raw.additional_authenticated_data
    recipients ← read_recipients (given_recipients raw)
    ok (record {
      protected_header = some protected_header;
      shared_header = shared_header;
      recipients = recipients;
      initialization_vector = initialization_vector;
      ciphertext = ciphertext;
      authentication_tag = authentication_tag;
      additional_authenticated_data = aad;
    })
