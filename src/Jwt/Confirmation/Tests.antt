-- ===== src/Jwt/Confirmation/Tests.antt =====
-- A confirmation with an address and a thumbprint.
use golang_jwt_ci_test.Prelude.{◌≡◌, refl, none, some, [], ◌∷◌, text}
use golang_jwt_ci_test.Errors.{ok, err, foreign}
use golang_jwt_ci_test.Jwt.Confirmation.{
  Confirmation, ClaimValue, object, string, Reader, keys, members, with_confirmation, confirmation,
}
use golang_jwt_ci_test.Jwt.Confirmation.RoundTrip.{confirmation-with_confirmation}

abbrev reader : Reader
reader = record {
  url_string = λ u. text "https://a";
  url_parse = λ t. ok 3;
  read_key = λ m. err (foreign 0 ∷ []);
}

abbrev bound : Confirmation
bound = record {
  jwk = none;
  encrypted_key = [];
  key_set_url = some 3;
  key_id = [];
  thumbprint = text "t";
}

abbrev bound_claim : ClaimValue
bound_claim =
    object ((text "jku", string (text "https://a")) ∷ (text "jkt", string (text "t")) ∷ [])

claim_ok : with_confirmation reader bound ≡ ok bound_claim
unfolding with_confirmation keys members
claim_ok = refl

confirmation-with_confirmation_example : confirmation reader (some bound_claim) ≡ ok (some bound)
confirmation-with_confirmation_example =
    confirmation-with_confirmation reader bound bound_claim refl claim_ok
