-- ===== src/Jwk/Operations/Tests.antt =====
-- checkOperations on some keys.
use golang_jwt_ci_test.Prelude.{◌≡◌, refl, [], ◌∷◌, Distinct, nat_same, list_same}
use golang_jwt_ci_test.Errors.{ok, err, inconsistent_key_use, duplicate_key_operation}
use golang_jwt_ci_test.Jwk.Key.{signature, sign, verify, encrypt}
use golang_jwt_ci_test.Jwk.Operations.{check_operations, operation_use, is_comparable_use}
use golang_jwt_ci_test.Jwk.Operations.Exact.{check_operations_iff, Agrees}

contradiction_found :
    check_operations signature (sign ∷ encrypt ∷ []) ≡ err (inconsistent_key_use ∷ [])
unfolding check_operations operation_use is_comparable_use
contradiction_found = refl

duplicate_found :
    check_operations [] (sign ∷ encrypt ∷ sign ∷ []) ≡ err (duplicate_key_operation ∷ [])
unfolding check_operations operation_use is_comparable_use
duplicate_found = refl

accepted : check_operations signature (sign ∷ verify ∷ []) ≡ ok tt
unfolding check_operations operation_use is_comparable_use
accepted = refl

check_operations_iff_example :
    Distinct (sign ∷ verify ∷ []) × Agrees signature sign × Agrees signature verify
check_operations_iff_example =
    let both = (check_operations_iff signature (sign ∷ verify ∷ [])).0 accepted in
    (both.0, both.1.0, both.1.1.0)
