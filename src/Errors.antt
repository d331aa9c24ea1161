-- ===== src/Errors.antt =====
-- The sentinel errors of the module (token.go, confirmation.go, encryption.go, headerkey.go,
-- header/header.go, jws/signature.go, jwe/jwe.go, jwk/key.go, jwa/algorithm.go, jwa/direct.go,
-- jwa/pbes2.go, jwa/ecdh_es.go, jwk/remote/remote.go,
-- internal/base64url/base64url.go). An error is the list of the sentinels that `errors.Is` finds in
-- it, in the order in which `fmt.Errorf` and `errors.Join` wrap them; the texts are left out.
use golang_jwt_ci_test.Prelude.{
  ℕ, ◌≡◌, refl, ◌⊎◌, inl, inr, Bool, true, false, Option, none, some, List, [], ◌∷◌, ◌++◌,
}
use golang_jwt_ci_test.Prelude.{contains_func}

pub data Sentinel : Type 0 where
  line_break corrupt_input : Sentinel
  malformed_token malformed_claim unsigned multiple_signatures : Sentinel
  expired not_yet_valid forbidden_algorithm unverified : Sentinel
  unexpected_issuer unexpected_audience unexpected_subject unexpected_type : Sentinel
  too_old issued_in_future replayed_token missing_required_claim reserved_claim : Sentinel
  no_such_signature unverifiable_signature : Sentinel
  multiple_confirmation_keys unidentified_presenter unprotected_confirmation_key : Sentinel
  malformed_confirmation : Sentinel
  unencrypted forbidden_key_management : Sentinel
  header_key_refused private_header_key symmetric_header_key : Sentinel
  unsupported_critical_parameter duplicate_critical_parameter : Sentinel
  critical_parameter_mismatch unencoded_payload private_ephemeral_key malformed_header : Sentinel
  duplicate_header_parameter unprotected_unencoded_payload encryption_algorithm : Sentinel
  no_suitable_key duplicate_key_operation inconsistent_key_use : Sentinel
  unsupported_algorithm unsupported_key_type invalid_key_type invalid_key_size : Sentinel
  invalid_initialization_vector decryption_failed signature_mismatch : Sentinel
  too_soon insecure_url unexpected_status oversized_key_set malformed_key_set : Sentinel
  malformed_message oversized_plaintext compressed_plaintext direct_key_management : Sentinel
  weak_password excessive_iteration_count insufficient_iteration_count : Sentinel
  indistinct_agreement_parties weak_key : Sentinel
  -- An error of code that is not in the module.
  foreign : ℕ → Sentinel

abbrev pub Error : Type 0
Error = List Sentinel

-- errors.Join
abbrev pub join : List Error → Error
join [] = []
join (e ∷ es) = e ++ join es

-- errors.Is(err, jwk.ErrNoSuitableKey)
abbrev pub is_no_suitable_key : Sentinel → Bool
is_no_suitable_key no_suitable_key = true
is_no_suitable_key _ = false

abbrev pub lacks_key : Error → Bool
lacks_key e = contains_func is_no_suitable_key e

-- errors.Is(err, jwa.ErrDecryptionFailed)
abbrev pub is_decryption_failed : Sentinel → Bool
is_decryption_failed decryption_failed = true
is_decryption_failed _ = false

abbrev pub is_unsupported_algorithm : Sentinel → Bool
is_unsupported_algorithm unsupported_algorithm = true
is_unsupported_algorithm _ = false

abbrev pub is_malformed_message : Sentinel → Bool
is_malformed_message malformed_message = true
is_malformed_message _ = false

pub data Result {ℓ} (A : Type ℓ) : Type ℓ where
  err : Error → Result A
  ok : A → Result A

abbrev pub or_fail {ℓ} : {A : Type ℓ} → Option A → Error → Result A
or_fail (some a) failure = ok a
or_fail none failure = err failure

-- `if !condition { return err }`
abbrev pub guard : Bool → Error → Result (Unit {0})
guard false failure = err failure
guard true failure = ok tt

infixl 5 ◌>>◌ ◌>>=◌
-- `if err != nil { return err }` after a call.
abbrev pub ◌>>=◌ {ι κ} : {X : Type ι} {Y : Type κ} → Result X → (X → Result Y) → Result Y
err failure >>= next = err failure
ok result >>= next = next result

-- The same after a call with no other result.
abbrev pub ◌>>◌ {ℓ} : {B : Type ℓ} → Result (Unit {0}) → Result B → Result B
call >> next = call >>= λ nothing. next

pub from_ok {ℓ} : {A : Type ℓ} {a b : A} → ok a ≡ ok b → a ≡ b
from_ok h = cc

pub or_fail-eq_ok {ℓ} :
    {A : Type ℓ} (o : Option A) (e : Error) {a : A} → or_fail o e ≡ ok a → o ≡ some a
or_fail-eq_ok none e h = absurd (cc)
or_fail-eq_ok (some b) e h = cc

pub guard-eq_ok : (b : Bool) (e : Error) {u : Unit} → guard b e ≡ ok u → b ≡ true
guard-eq_ok true e h = refl
guard-eq_ok false e h = absurd (cc)

-- An outcome is a result or an error.
pub Result-cases {ℓ} :
    {A : Type ℓ} (r : Result A) → ((a : A) × (r ≡ ok a)) ⊎ ((e : Error) × (r ≡ err e))
Result-cases (err e) = inr (e, refl)
Result-cases (ok a) = inl (a, refl)

-- The two halves of a chain that succeeded.
pub >>=-eq_ok {ι κ} :
    {X : Type ι} {Y : Type κ} (call : Result X) (next : X → Result Y) {y : Y}
    → call >>= next ≡ ok y
    → (x : X) × (call ≡ ok x) × (next x ≡ ok y)
>>=-eq_ok (err failure) next done = cc
>>=-eq_ok (ok x) next done = (x, refl, done)

-- Two calls that succeed, one after the other.
pub eq_ok->>= {ι κ} :
    {X : Type ι} {Y : Type κ} (call : Result X) (next : X → Result Y) {x : X} {y : Y}
    → call ≡ ok x
    → next x ≡ ok y
    → call >>= next ≡ ok y
eq_ok->>= (err failure) next done then_done = cc
eq_ok->>= (ok z) next done then_done = cc
