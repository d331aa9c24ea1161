-- ===== src/Header/Critical.antt =====
-- checkCritical of header/header.go: the "crit" list and the "b64" parameter agree.
use golang_jwt_ci_test.Prelude.{
  ◌≡◌, refl, ◌↔◌, ◌⊎◌, inl, inr, Bool, true, false, not, ◌||◌, Option, none, some, List, [], ◌∷◌,
  arith, Octets, text, ◌==◌, nat_same, list_same, list_eqb_iff, contains, if◌then◌else◌, sym, ◌∙◌,
  ap, subst,
}
use golang_jwt_ci_test.Errors.{
  Result, ok, err, ◌>>◌, guard, unsupported_critical_parameter, duplicate_critical_parameter,
  critical_parameter_mismatch, unencoded_payload,
}

-- The constant UnencodedPayload.
abbrev pub unencoded_payload_name : Octets
unencoded_payload_name = text "b64"

unfoldable pub unsupported : List Octets → List Octets
unsupported [] = []
unsupported (p ∷ rest) =
    let others = unsupported rest in
    if not (p == unencoded_payload_name) then p ∷ others else others

-- A parameter that occurs again after its index.
unfoldable pub has_duplicate : List Octets → Bool
has_duplicate [] = false
has_duplicate (p ∷ rest) = contains rest p || has_duplicate rest

unfoldable pub check_base64 : Bool → Option Bool → Result (Unit {0})
check_base64 named none = guard (not named) (critical_parameter_mismatch ∷ [])
check_base64 named (some false) = err (unencoded_payload ∷ [])
check_base64 named (some true) = guard named (critical_parameter_mismatch ∷ [])

unfoldable pub check_critical : List Octets → Option Bool → Result (Unit {0})
check_critical critical base64url_encode_payload = do
  guard (unsupported critical == []) (unsupported_critical_parameter ∷ [])
  guard (not (has_duplicate critical)) (duplicate_critical_parameter ∷ [])
  check_base64 (contains critical unencoded_payload_name) base64url_encode_payload

-- The two headers that pass.
abbrev pub Agrees : List Octets → Option Bool → Type 0
Agrees critical b64 =
    ((critical ≡ []) × (b64 ≡ none))
    ⊎ ((critical ≡ unencoded_payload_name ∷ []) × (b64 ≡ some true))

only_b64 :
    (p : Octets) (rest : List Octets)
    → (unsupported (p ∷ rest) == []) ≡ true
    → p ≡ unencoded_payload_name
unfolding unsupported
only_b64 p rest h = ground (arith, list_eqb_iff p unencoded_payload_name)

later_b64 :
    (p : Octets) (rest : List Octets)
    → (unsupported (p ∷ rest) == []) ≡ true
    → (unsupported rest == []) ≡ true
unfolding unsupported
later_b64 p rest h = ground arith

check_critical-eq_ok :
    (critical : List Octets) (b64 : Option Bool)
    → check_critical critical b64 ≡ ok tt
    → ((unsupported critical == []) ≡ true)
      × (has_duplicate critical ≡ false)
      × (check_base64 (contains critical unencoded_payload_name) b64 ≡ ok tt)
unfolding check_critical
check_critical-eq_ok critical b64 h = (ground arith, ground arith, ground arith)

single : (b64 : Option Bool) → check_base64 true b64 ≡ ok tt → b64 ≡ some true
unfolding check_base64
single none h = cc
single (some true) h = refl
single (some false) h = cc

absent : (b64 : Option Bool) → check_base64 false b64 ≡ ok tt → b64 ≡ none
unfolding check_base64
absent none h = refl
absent (some true) h = cc
absent (some false) h = cc

no_pair : (p q : Octets) (rest : List Octets) → p ≡ q → has_duplicate (p ∷ q ∷ rest) ≡ true
unfolding has_duplicate
no_pair p q rest e = ground (arith, list_eqb_iff q p)

check_critical-Agrees :
    (critical : List Octets) (b64 : Option Bool)
    → check_critical critical b64 ≡ ok tt
    → Agrees critical b64
check_critical-Agrees [] b64 h = inl (refl, absent b64 (check_critical-eq_ok [] b64 h).2)
check_critical-Agrees (p ∷ []) b64 h =
    let facts = check_critical-eq_ok (p ∷ []) b64 h in
    let e : p ≡ unencoded_payload_name = only_b64 p [] facts.0 in
    inr (
      ap (λ t. t ∷ []) e,
      single b64 (
          subst (λ t. check_base64 (contains (t ∷ []) unencoded_payload_name) b64 ≡ ok tt) e
            facts.2),
    )
check_critical-Agrees (p ∷ q ∷ rest) b64 h =
    let facts = check_critical-eq_ok (p ∷ q ∷ rest) b64 h in
    let e : p ≡ unencoded_payload_name = only_b64 p (q ∷ rest) facts.0 in
    let f : q ≡ unencoded_payload_name = only_b64 q rest (later_b64 p (q ∷ rest) facts.0) in
    let twice : has_duplicate (p ∷ q ∷ rest) ≡ true = no_pair p q rest (e ∙ sym f) in
    cc (facts.1, twice)

-- A header passes exactly in two cases: it has neither "crit" nor "b64", or "crit" is the one name
-- "b64" and "b64" is true. Every other critical parameter, a name twice, a name with no parameter, a
-- parameter with no name and a false "b64" are refused.
pub check_critical_iff :
    (critical : List Octets) (b64 : Option Bool)
    → (check_critical critical b64 ≡ ok tt) ↔ Agrees critical b64
unfolding check_critical unsupported has_duplicate check_base64
check_critical_iff critical b64 = (check_critical-Agrees critical b64, back)
  where
    back : Agrees critical b64 → check_critical critical b64 ≡ ok tt
    back (inl (c, b)) = rw (c, b) refl
    back (inr (c, b)) = rw (c, b) refl
