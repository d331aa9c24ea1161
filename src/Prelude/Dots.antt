-- ===== src/Prelude/Dots.antt =====
-- strings.Count and strings.Cut for the "." between the parts of a compact serialization.
use Prim.Native.Nat.{ℕ, ◌+◌, ◌<◌}
use mathlib.Core.Path.{◌≡◌, ap}
use mathlib.Core.Logic.{inl, inr}
use mathlib.Core.List.{[], ◌∷◌, ◌++◌}
use native.Mathlib.Omega.{arith}
use golang_jwt_ci_test.Prelude.Tests.{if◌then◌else◌, Bool-cases}
use golang_jwt_ci_test.Prelude.Equality.{◌==◌, nat_same, Octets}

-- The octet of ".".
abbrev pub dot : ℕ
dot = 46

-- strings.Count(token, ".")
unfoldable pub count_dots : Octets → ℕ
count_dots [] = 0
count_dots (c ∷ rest) = let others = count_dots rest in if c == dot then others + 1 else others

-- strings.Cut(token, "."), where there is a dot.
unfoldable pub cut : Octets → Octets × Octets
cut [] = ([], [])
cut (c ∷ rest) = let later = cut rest in if c == dot then ([], rest) else (c ∷ later.0, later.1)

-- The two parts of a cut with the dot between them.
pub cut-append :
    (t : Octets)
    → 0 < count_dots t
    → ((cut t).0 ++ dot ∷ (cut t).1 ≡ t) × (count_dots (cut t).1 + 1 ≡ count_dots t)
unfolding cut count_dots
cut-append [] h = ground arith
cut-append (c ∷ rest) h = elim (Bool-cases (c == dot)) [
  | inl e ↦ (ground arith, ground arith)
  | inr e ↦
      let later = cut-append rest (ground arith) in
      (ground (arith, e, ap (◌∷◌ c) later.0), ground (arith, later.1))
]
