-- ===== src/Jwt/Compact.antt =====
-- The compact serialization of token.go: payload.Unmarshal, Unmarshal and the part of Marshal for a
-- token that is not encrypted. A token with five parts goes to jwe.Unmarshal, a parameter.
pub mod RoundTrip
mod Tests
use golang_jwt_ci_test.Prelude.{
  ℕ, ◌+◌, ◌≡◌, Bool, true, false, not, Option, none, some, List, [], ◌∷◌, ◌++◌, Octets, text, ◌==◌,
  nat_same, if◌then◌else◌,
}
use golang_jwt_ci_test.Prelude.Dots.{dot, count_dots, cut}
use golang_jwt_ci_test.Errors.{
  Result, ok, err, ◌>>=◌, ◌>>◌, guard, or_fail, malformed_token, unsigned, multiple_signatures,
}
use golang_jwt_ci_test.Base64Url
use golang_jwt_ci_test.Header.Codec
use golang_jwt_ci_test.Jws.{Signature, signature_text}
use golang_jwt_ci_test.Jws
use golang_jwt_ci_test.Jwt.Token.{Payload, Token, Services}
use golang_jwt_ci_test.Jwt.Signing.{marshal_payload, sign}

-- new(jws.Signature)
abbrev pub new_signature : Signature
new_signature = record { protected_header = none; header = none; signature = [] }

pub data Unmarshaled (Message : Type 0) : Type 0 where
  signed : Token → Unmarshaled Message
  encrypted : Message → Unmarshaled Message

-- The Token literal at the end of Unmarshal.
abbrev pub new_token : Payload → Signature → Token
new_token payload signature = record {
  payload = payload;
  signatures = some signature ∷ [];
  pending = [];
  token_type = [];
  issuance_checks = [];
  authenticated_types = [];
  verified = false;
}

module _ (s : Services) where
  unfoldable pub unmarshal_payload : Octets → Result Payload
  unmarshal_payload encoded_payload = do
    json ← Base64Url.decode encoded_payload
    claims ← s.read_claims json
    ok (record { claims = claims; encoded_payload = encoded_payload })

  unfoldable pub unmarshal_parts : Octets → Octets → Octets → Result Token
  unmarshal_parts encoded_header encoded_payload encoded_signature = do
    signature ←
        Jws.unmarshal s.header_text s.header_names new_signature encoded_header encoded_signature
    payload ← unmarshal_payload encoded_payload
    ok (new_token payload signature)

  unfoldable pub unmarshal_signed : Octets → Result Token
  unmarshal_signed token = do
    guard (count_dots token == 2) (malformed_token ∷ [])
    unmarshal_parts (cut token).0 (cut (cut token).1).0 (cut (cut token).1).1

  unfoldable pub unmarshal :
      {Message : Type 0} → (Octets → Result Message) → Octets → Result (Unmarshaled Message)
  unmarshal unmarshal_message token =
      if count_dots token == 4
      then (do message ← unmarshal_message token; ok (encrypted message))
      else (do found ← unmarshal_signed token; ok (signed found))

  -- Go panics on a nil signature and on a nil protected header; here they are an error.
  unfoldable pub marshal_one : Payload → Option Signature → Result Octets
  marshal_one payload none = err (malformed_token ∷ [])
  marshal_one payload (some signature) = do
    protected_header ← or_fail signature.protected_header (malformed_token ∷ [])
    encoded_protected_header ← Codec.marshal s.header_text protected_header
    encoded_payload ← marshal_payload s payload
    ok (encoded_protected_header ++ dot ∷ (encoded_payload ++ dot ∷ signature_text signature))

  unfoldable pub marshal_signatures : Payload → List (Option Signature) → Result Octets
  marshal_signatures payload [] = err (unsigned ∷ [])
  marshal_signatures payload (signature ∷ []) = marshal_one payload signature
  marshal_signatures payload (a ∷ b ∷ rest) = err (multiple_signatures ∷ [])

  abbrev pub after_sign : Token × Result (Unit {0}) → Token × Result Octets
  after_sign (token, err e) = (token, err e)
  after_sign (token, ok u) = (token, marshal_signatures token.payload token.signatures)

  unfoldable pub marshal : Token → Token × Result Octets
  marshal token = after_sign (sign s token)
