-- ===== src/Jwt/Verification/Algorithms.antt =====
-- The algorithms that Verify of token.go accepts: those of the configuration, or the default ones,
-- that are also among the required ones.
use golang_jwt_ci_test.Prelude.{
  ◌≡◌, ◌↔◌, inl, inr, ap, true, Option, none, some, List, [], ◌∷◌, arith, if◌then◌else◌, contains,
  ◌==◌, is_empty, Bool-cases,
}
use golang_jwt_ci_test.Jwa.Algorithm.{Algorithm, algorithm_same}
use golang_jwt_ci_test.Jwt.Token.{VerificationConfig, default_algorithms}
use golang_jwt_ci_test.Jwt.Verification.{restrict, narrow, effective}

abbrev pub configured : VerificationConfig → List Algorithm
configured config = if is_empty config.algorithms then default_algorithms else config.algorithms

abbrev pub IsRequired : Option (List Algorithm) → Algorithm → Type 0
IsRequired none a = Unit
IsRequired (some required) a = contains required a ≡ true

restrict_iff :
    (required algorithms : List Algorithm) (a : Algorithm)
    → (contains (restrict required algorithms) a ≡ true)
      ↔ ((contains algorithms a ≡ true) × (contains required a ≡ true))
unfolding restrict
restrict_iff required [] a = ground arith
restrict_iff required (b ∷ rest) a = elim (Bool-cases (b == a)) [
  | inl e ↦ ground (
    arith,
    restrict_iff required rest a,
    ap (contains required) ((algorithm_same.same_iff b a).0 e),
  )
  | inr e ↦ ground (arith, restrict_iff required rest a)
]

narrow_iff :
    (o : Option (List Algorithm)) (algorithms : List Algorithm) (a : Algorithm)
    → (contains (narrow o algorithms) a ≡ true) ↔ ((contains algorithms a ≡ true) × IsRequired o a)
narrow_iff none algorithms a = ground arith
narrow_iff (some required) algorithms a = restrict_iff required algorithms a

-- Verify accepts an algorithm exactly when it is configured, or a default one where none is
-- configured, and it is among the required ones, if any are required.
pub effective_iff :
    (config : VerificationConfig) (a : Algorithm)
    → (contains (effective config).algorithms a ≡ true)
      ↔ ((contains (configured config) a ≡ true) × IsRequired config.required_algorithms a)
unfolding effective
effective_iff config a = narrow_iff config.required_algorithms (configured config) a
