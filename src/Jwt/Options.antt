-- ===== src/Jwt/Options.antt =====
-- NewToken and the token options of token.go, extension.go, confirmation.go and encryption.go. An option
-- is a constructor with its arguments, and `apply_option` is the func that Go makes of it.
pub mod Private
mod Tests
use golang_jwt_ci_test.Prelude.{
  ℕ, Bool, true, false, not, Option, none, some, List, [], ◌∷◌, ◌++◌, Octets, text, ◌==◌, nat_same,
  list_same, contains, if◌then◌else◌,
}
use golang_jwt_ci_test.Prelude.Int.{ℤ}
use golang_jwt_ci_test.Errors.{Result, ok, err, ◌>>=◌, ◌>>◌, guard, reserved_claim}
use golang_jwt_ci_test.Header.Fields.{Header}
use golang_jwt_ci_test.Jwa.Algorithm.{Algorithm}
use golang_jwt_ci_test.Jwk.Key.{Key}
use golang_jwt_ci_test.Jwt.Confirmation.{ClaimValue, Reader}
use golang_jwt_ci_test.Jwt.Confirmation
use golang_jwt_ci_test.Jwt.Encryption.{SealedToken}
use golang_jwt_ci_test.Jwt.Token.{Value, Claims, Payload, PendingSignature, Token}

abbrev pub registered_claims : List Octets
registered_claims =
    text "iss" ∷ text "sub" ∷ text "aud" ∷ text "exp" ∷ text "nbf" ∷ text "iat" ∷ text "jti" ∷ []

-- An assignment to the map: the entry of the name, or a new one.
unfoldable pub set_private_claim : Octets → Value → List (Octets × Value) → List (Octets × Value)
set_private_claim name value [] = (name, value) ∷ []
set_private_claim name value ((key, old) ∷ rest) =
    let later = set_private_claim name value rest in
    if key == name then (key, value) ∷ rest else (key, old) ∷ later

pub data TokenOption : Type 0 where
  with_issuer with_subject with_id with_type : Octets → TokenOption
  with_audience : List Octets → TokenOption
  with_expiration_time with_not_before with_issued_at : Option ℤ → TokenOption
  with_private_claim : Octets → Value → TokenOption
  with_signature :
      Algorithm → Option Key → List (Header × Option Header → Header × Option Header) → TokenOption
  with_issuance_rule : List ℕ → TokenOption
  with_confirmation : Confirmation.Confirmation → TokenOption
  with_encryption : Algorithm → Algorithm → Option Key → List (Header → Header) → TokenOption

abbrev set_claims : Claims → SealedToken → SealedToken
set_claims c t = record t {
  token = record t.token { payload = record t.token.payload { claims = c } };
}

abbrev set_private : Octets → Value → SealedToken → SealedToken
set_private name value t =
    set_claims
      (record t.token.payload.claims {
        private_claims = set_private_claim name value t.token.payload.claims.private_claims;
      })
      t

abbrev add_checks : List ℕ → SealedToken → SealedToken
add_checks rules t = record t {
  token = record t.token { issuance_checks = t.token.issuance_checks ++ rules };
}

-- WithEncryption
abbrev add_encryption :
    Algorithm → Algorithm → Option Key → List (Header → Header) → SealedToken → SealedToken
add_encryption algorithm encryption key options t = record t {
  pending_encryption =
      some
        (record { algorithm = algorithm; encryption = encryption; key = key; options = options });
}

-- The URLs of a confirmation, its map as the value of a claim, and the number that stands for
-- checkConfirmationIssuance.
module _ (r : Reader) (value_of : ClaimValue → Value) (confirmation_check : ℕ) where
  -- WithConfirmation
  unfoldable pub add_confirmation : Confirmation.Confirmation → SealedToken → Result SealedToken
  add_confirmation c t = do
    members ← Confirmation.with_confirmation r c
    ok (add_checks (confirmation_check ∷ []) (set_private (text "cnf") (value_of members) t))

  unfoldable pub apply_option : TokenOption → SealedToken → Result SealedToken
  apply_option (with_issuer i) t = ok (set_claims (record t.token.payload.claims { issuer = i }) t)
  apply_option (with_subject i) t =
      ok (set_claims (record t.token.payload.claims { subject = i }) t)
  apply_option (with_id i) t = ok (set_claims (record t.token.payload.claims { id = i }) t)
  apply_option (with_type y) t = ok (record t { token = record t.token { token_type = y } })
  apply_option (with_audience a) t =
      ok (set_claims (record t.token.payload.claims { audience = a }) t)
  apply_option (with_expiration_time i) t =
      ok (set_claims (record t.token.payload.claims { expiration_time = i }) t)
  apply_option (with_not_before i) t =
      ok (set_claims (record t.token.payload.claims { not_before = i }) t)
  apply_option (with_issued_at i) t =
      ok (set_claims (record t.token.payload.claims { issued_at = i }) t)
  apply_option (with_private_claim key value) t = do
    guard (not (contains registered_claims key)) (reserved_claim ∷ [])
    ok (set_private key value t)
  apply_option (with_signature algorithm key options) t = ok (record t {
    token = record t.token {
      pending =
          t.token.pending ++ record { algorithm = algorithm; key = key; options = options } ∷ [];
    };
  })
  apply_option (with_issuance_rule rules) t = ok (add_checks rules t)
  apply_option (with_confirmation c) t = add_confirmation c t
  apply_option (with_encryption algorithm encryption key options) t =
      ok (add_encryption algorithm encryption key options t)

  unfoldable pub apply_options : List TokenOption → SealedToken → Result SealedToken
  apply_options [] t = ok t
  apply_options (option ∷ rest) t = do changed ← apply_option option t; apply_options rest changed

abbrev pub blank : Token
blank = record {
  payload = record {
    claims = record {
      audience = [];
      expiration_time = none;
      issued_at = none;
      issuer = [];
      id = [];
      not_before = none;
      subject = [];
      private_claims = [];
    };
    encoded_payload = [];
  };
  signatures = [];
  pending = [];
  token_type = [];
  issuance_checks = [];
  authenticated_types = [];
  verified = false;
}

abbrev pub blank_sealed : SealedToken
blank_sealed = record { token = blank; message = none; pending_encryption = none }

unfoldable pub new_token : Reader → (ClaimValue → Value) → ℕ → List TokenOption → Result SealedToken
new_token r value_of confirmation_check options =
    apply_options r value_of confirmation_check options blank_sealed
