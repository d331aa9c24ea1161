-- ===== src/Jwk/Operations.antt =====
-- operationUse and checkOperations of jwk/key.go: "use" and "key_ops" of one key agree.
pub mod Exact
mod Tests
use golang_jwt_ci_test.Prelude.{
  ◌≡◌, Bool, true, false, not, ◌&&◌, ◌||◌, Option, none, some, List, [], ◌∷◌, Octets, ◌==◌,
  nat_same, list_same, contains, contains_func, if◌then◌else◌,
}
use golang_jwt_ci_test.Errors.{Result, ok, err, duplicate_key_operation, inconsistent_key_use}
use golang_jwt_ci_test.Jwk.Key.{
  signature, encryption, sign, verify, encrypt, decrypt, wrap_key, unwrap_key, derive_key,
  derive_bits,
}

-- The map operationUse; `none` is a name that it does not hold.
unfoldable pub operation_use : Octets → Option Octets
operation_use operation =
    if operation == sign || operation == verify
    then some signature
    else if contains (encrypt ∷ decrypt ∷ wrap_key ∷ unwrap_key ∷ derive_key ∷ derive_bits ∷ [])
        operation
    then some encryption
    else none

unfoldable pub is_comparable_use : Octets → Bool
is_comparable_use use_ = use_ == signature || use_ == encryption

-- `comparableUse && defined && impliedUse != publicKeyUse`
pub contradicts : Octets → Option Octets → Bool
contradicts use_ none = false
contradicts use_ (some implied) = is_comparable_use use_ && not (implied == use_)

-- The loop, with the set of the operations that it has seen.
pub check_from : Octets → List Octets → List Octets → Result (Unit {0})
check_from use_ seen [] = ok tt
check_from use_ seen (operation ∷ rest) =
    let others = check_from use_ (operation ∷ seen) rest in
    if contains seen operation
    then err (duplicate_key_operation ∷ [])
    else if contradicts use_ (operation_use operation)
    then err (inconsistent_key_use ∷ [])
    else others

unfoldable pub check_operations : Octets → List Octets → Result (Unit {0})
unfolding check_from contradicts
check_operations use_ operations = check_from use_ [] operations
