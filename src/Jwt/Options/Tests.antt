-- ===== src/Jwt/Options/Tests.antt =====
-- A token with an issuer, a private claim, a confirmation and an encryption to come.
use golang_jwt_ci_test.Prelude.{◌≡◌, refl, none, some, List, [], ◌∷◌, text}
use golang_jwt_ci_test.Errors.{ok, err, reserved_claim}
use golang_jwt_ci_test.Jwa.Algorithm.{a128kw, a128gcm}
use golang_jwt_ci_test.Jwt.Token.{Value}
use golang_jwt_ci_test.Jwt.Confirmation.{
  ClaimValue, object, scalar, Reader, Confirmation, members, keys,
}
use golang_jwt_ci_test.Jwt.Confirmation
use golang_jwt_ci_test.Jwt.Encryption.{SealedToken}
use golang_jwt_ci_test.Jwt.Options.{
  TokenOption, with_issuer, with_private_claim, with_confirmation, with_encryption, apply_option,
  apply_options, add_confirmation, blank, new_token, set_private_claim,
}
use golang_jwt_ci_test.Jwt.Options.Private.{IsNew, new_token-IsNew}

abbrev toy : Reader
toy = record {
  url_string = λ u. [];
  url_parse = λ o. ok 0;
  read_key = λ m. err (reserved_claim ∷ []);
}

abbrev value_of : ClaimValue → Value
value_of (object ms) = some 7
value_of (scalar n) = some n

abbrev confirmed : Confirmation
confirmed = record {
  jwk = none;
  encrypted_key = [];
  key_set_url = none;
  key_id = text "k";
  thumbprint = [];
}

abbrev chosen : List TokenOption
chosen =
    with_issuer (text "me")
    ∷ with_private_claim (text "a") (some 1)
    ∷ with_private_claim (text "a") (some 2)
    ∷ with_confirmation confirmed
    ∷ with_encryption a128kw a128gcm none []
    ∷ []

abbrev made : SealedToken
made = record {
  token = record blank {
    payload = record blank.payload {
      claims = record blank.payload.claims {
        issuer = text "me";
        private_claims = (text "a", some 2) ∷ (text "cnf", some 7) ∷ [];
      };
    };
    issuance_checks = 5 ∷ [];
  };
  message = none;
  pending_encryption =
      some (record { algorithm = a128kw; encryption = a128gcm; key = none; options = [] });
}

made_ok : new_token toy value_of 5 chosen ≡ ok made
unfolding new_token apply_options apply_option add_confirmation set_private_claim
    Confirmation.with_confirmation members keys
made_ok = refl

reserved :
    new_token toy value_of 5 (with_private_claim (text "exp") none ∷ []) ≡ err (reserved_claim ∷ [])
unfolding new_token apply_options apply_option
reserved = refl

new_token-IsNew_example : IsNew made
new_token-IsNew_example = new_token-IsNew toy value_of 5 chosen made made_ok
