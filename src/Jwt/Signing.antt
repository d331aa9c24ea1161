-- ===== src/Jwt/Signing.antt =====
-- payload.Marshal, signingInput and sign of token.go.
use golang_jwt_ci_test.Prelude.{
  ℕ, Option, none, some, List, [], ◌∷◌, ◌++◌, Octets, text, ◌==◌, nat_same, list_same,
  if◌then◌else◌, is_empty, not,
}
use golang_jwt_ci_test.Errors.{Result, ok, err, ◌>>=◌, ◌>>◌}
use golang_jwt_ci_test.Base64Url
use golang_jwt_ci_test.Jwa.Material.{Material}
use golang_jwt_ci_test.Jwk.Key
use golang_jwt_ci_test.Header.Fields.{Header}
use golang_jwt_ci_test.Header.Codec
use golang_jwt_ci_test.Header.RoundTrip.{empty}
use golang_jwt_ci_test.Jws.{Signature}
use golang_jwt_ci_test.Jwt.Token.{Payload, PendingSignature, Token, Services}

unfoldable pub signing_input : Octets → Octets → Octets
signing_input encoded_protected_header encoded_payload =
    encoded_protected_header ++ text "." ++ encoded_payload

unfoldable pub apply_headers :
    List (Header × Option Header → Header × Option Header)
    → Header × Option Header
    → Header × Option Header
apply_headers [] headers = headers
apply_headers (option ∷ rest) headers = apply_headers rest (option headers)

module _ (s : Services) where
  -- The encoded payload, which the payload keeps.
  unfoldable pub marshal_payload : Payload → Result Octets
  marshal_payload payload =
      if not (payload.encoded_payload == [])
      then ok payload.encoded_payload
      else do json ← s.write_claims payload.claims; ok (Base64Url.encode json)

  unfoldable pub keep_payload : Token → Octets → Token
  keep_payload token encoded_payload = record token {
    payload = record token.payload { encoded_payload = encoded_payload };
  }

  -- The loop over the issuance checks, which may change the token, as AddProtectedHeader does.
  unfoldable pub check_issuance : Token → List ℕ → Token × Result (Unit {0})
  check_issuance token [] = (token, ok tt)
  check_issuance token (check ∷ rest) =
      let (changed, checked) = s.issuance_rule check token in
      let later = check_issuance changed rest in
      elim checked [ err e ↦ (changed, err e) | ok u ↦ later ]

  abbrev check_chain : Option Key.Key → Option Header → Result (Unit {0})
  check_chain none h = ok tt
  check_chain (some key) none = ok tt
  check_chain (some key) (some h) = s.check_certificate_chain key h.x509_certificate_chain

  abbrev pub material_of : Option Key.Key → Option Material
  material_of none = none
  material_of (some key) = key.material

  -- One pass of the loop of sign: the encoded payload and the new signature.
  unfoldable pub sign_one : Token → Octets → PendingSignature → Result (Octets × Signature)
  sign_one token token_type pending =
      let headers =
        apply_headers pending.options
          (record empty { type_ = token_type; algorithm = some pending.algorithm }, none) in
      do
        check_chain pending.key (some headers.0)
        check_chain pending.key headers.1
        encoded_protected_header ← Codec.marshal s.header_text headers.0
        encoded_payload ← marshal_payload token.payload
        raw ←
            s.sign pending.algorithm (signing_input encoded_protected_header encoded_payload)
              (material_of pending.key)
        ok (
          encoded_payload,
          record {
            protected_header =
                some (record headers.0 { encoded_header = encoded_protected_header });
            header = headers.1;
            signature = raw;
          },
        )

  abbrev pub add_signature : Token → Octets × Signature → Token
  add_signature token (encoded_payload, signature) = record (keep_payload token encoded_payload) {
    signatures = token.signatures ++ some signature ∷ [];
  }

  -- The loop of sign: a failure leaves the signatures made before it on the token. The text
  -- that a failed pass leaves in the payload is the one that the next pass makes.
  unfoldable pub sign_each : Octets → List PendingSignature → Token → Token × Result (Unit {0})
  sign_each token_type [] token = (record token { pending = [] }, ok tt)
  sign_each token_type (pending ∷ rest) token = elim (sign_one token token_type pending) [
    | err e ↦ (token, err e)
    | ok made ↦ sign_each token_type rest (add_signature token made)
  ]

  unfoldable pub sign : Token → Token × Result (Unit {0})
  sign token =
      let token_type = if token.token_type == [] then text "JWT" else token.token_type in
      let (changed, checked) =
        if is_empty token.pending
        then (token, ok tt)
        else check_issuance token token.issuance_checks in
      let made = sign_each token_type changed.pending changed in
      elim checked [ err e ↦ (changed, err e) | ok u ↦ made ]
