-- ===== src/Jwk/Operations/Exact.antt =====
-- What checkOperations of jwk/key.go accepts.
use golang_jwt_ci_test.Prelude.{Distinct}
use golang_jwt_ci_test.Prelude.{
  ◌≡◌, refl, ◌↔◌, inl, inr, true, false, some, List, [], ◌∷◌, arith, Octets, nat_same, list_same,
  list_eqb_iff, contains, All, Option-cases,
}
use golang_jwt_ci_test.Errors.{ok}
use golang_jwt_ci_test.Jwk.Operations.{
  operation_use, is_comparable_use, contradicts, check_from, check_operations,
}

-- An operation that the map gives a use has the declared one, where that is "sig" or "enc".
abbrev pub Agrees : Octets → Octets → Type 0
Agrees use_ o =
    (implied : Octets)
    → is_comparable_use use_ ≡ true
    → operation_use o ≡ some implied
    → implied ≡ use_

abbrev Fresh : List Octets → List Octets → Type 0
Fresh seen = All (λ o. contains seen o ≡ false)

Fresh-cons :
    (o : Octets) (seen rest : List Octets)
    → Fresh (o ∷ seen) rest
    → Fresh seen rest × (contains rest o ≡ false)
Fresh-cons o seen [] h = (tt, refl)
Fresh-cons o seen (x ∷ rest) h =
    let later = Fresh-cons o seen rest h.1 in
    (
      (ground (arith, h.0), later.0),
      ground (arith, h.0, later.1, list_eqb_iff o x, list_eqb_iff x o),
    )

cons-Fresh :
    (o : Octets) (seen rest : List Octets)
    → Fresh seen rest
    → contains rest o ≡ false
    → Fresh (o ∷ seen) rest
cons-Fresh o seen [] h e = tt
cons-Fresh o seen (x ∷ rest) h e = (
  ground (arith, h.0, e, list_eqb_iff o x, list_eqb_iff x o),
  cons-Fresh o seen rest h.1 (ground (arith, e)),
)

Agrees-of_false : (use_ o : Octets) → contradicts use_ (operation_use o) ≡ false → Agrees use_ o
unfolding contradicts
Agrees-of_false use_ o h implied c e =
    ground (arith, list_eqb_iff implied use_, rw (e, contradicts) at h)

false-of_Agrees : (use_ o : Octets) → Agrees use_ o → contradicts use_ (operation_use o) ≡ false
unfolding contradicts
false-of_Agrees use_ o h = elim (Option-cases (operation_use o)) [
  | inl e ↦ rw e refl
  | inr (implied, e) ↦ rw e (ground (arith, list_eqb_iff implied use_, h implied))
]

check_from-ok :
    (use_ : Octets) (seen rest : List Octets)
    → check_from use_ seen rest ≡ ok tt
    → Fresh seen rest × Distinct rest × All (Agrees use_) rest
unfolding check_from
check_from-ok use_ seen [] h = (tt, tt, tt)
check_from-ok use_ seen (o ∷ rest) h =
    let fresh : contains seen o ≡ false = ground arith in
    let agrees : contradicts use_ (operation_use o) ≡ false = ground arith in
    let (later, distinct, all) = check_from-ok use_ (o ∷ seen) rest (ground arith) in
    let parts = Fresh-cons o seen rest later in
    ((fresh, parts.0), (parts.1, distinct), (Agrees-of_false use_ o agrees, all))

ok-check_from :
    (use_ : Octets) (seen rest : List Octets)
    → Fresh seen rest
    → Distinct rest
    → All (Agrees use_) rest
    → check_from use_ seen rest ≡ ok tt
unfolding check_from
ok-check_from use_ seen [] f d a = refl
ok-check_from use_ seen (o ∷ rest) f d a =
    rw (f.0, false-of_Agrees use_ o a.0)
      (ok-check_from use_ (o ∷ seen) rest (cons-Fresh o seen rest f.1 d.0) d.1 a.1)

all-Fresh : (rest : List Octets) → Fresh [] rest
all-Fresh [] = tt
all-Fresh (o ∷ rest) = (refl, all-Fresh rest)

-- checkOperations accepts a key exactly when no operation occurs twice and, for a "use" of "sig" or
-- "enc", every operation of the specification that the key lists belongs to that use.
pub check_operations_iff :
    (use_ : Octets) (operations : List Octets)
    → (check_operations use_ operations ≡ ok tt)
      ↔ (Distinct operations × All (Agrees use_) operations)
unfolding check_operations
check_operations_iff use_ operations = (
  λ h. (let (f, d, a) = check_from-ok use_ [] operations h in (d, a)),
  λ h. ok-check_from use_ [] operations (all-Fresh operations) h.0 h.1,
)
