-- ===== src/Prelude/Equality.antt =====
-- Go's `==` on comparable values, as an interface; a string is its octets.
use Prim.Native.Nat.{ℕ}
use Prim.Native.Char.{code}
use Prim.Native.String.{String}
use mathlib.Core.Path.{◌≡◌}
use mathlib.Core.Logic.{◌↔◌}
use mathlib.Core.Bool.{Bool, true, false, ◌&&◌}
use mathlib.Core.List.{List, [], ◌∷◌}
use native.Mathlib.Omega.{arith}
use golang_jwt_ci_test.Prelude.Tests.{eqb, eqb_iff}
use golang_jwt_ci_test.Prelude.Lists.{contains_func}

pub record Same {ℓ} (A : Type ℓ) : Type ℓ where
  pub same : A → A → Bool
  pub same_iff : (a b : A) → (same a b ≡ true) ↔ (a ≡ b)

infix 50 ◌==◌
abbrev pub ◌==◌ {ℓ} : {A : Type ℓ} ⦃s : Same A⦄ → A → A → Bool
◌==◌ ⦃s⦄ = s.same

abbrev pub ==_iff {ℓ} : {A : Type ℓ} ⦃s : Same A⦄ (a b : A) → ((a == b) ≡ true) ↔ (a ≡ b)
==_iff ⦃s⦄ = s.same_iff

instance abbrev pub nat_same : Same ℕ
nat_same = record { same = eqb; same_iff = eqb_iff }

module _ {ℓ} {A : Type ℓ} ⦃s : Same A⦄ where
  abbrev pub list_eqb : List A → List A → Bool
  list_eqb [] [] = true
  list_eqb [] (y ∷ ys) = false
  list_eqb (x ∷ xs) [] = false
  list_eqb (x ∷ xs) (y ∷ ys) = x == y && list_eqb xs ys

  pub list_eqb_iff : (xs ys : List A) → (list_eqb xs ys ≡ true) ↔ (xs ≡ ys)
  list_eqb_iff [] [] = ground arith
  list_eqb_iff [] (y ∷ ys) = ground arith
  list_eqb_iff (x ∷ xs) [] = ground arith
  list_eqb_iff (x ∷ xs) (y ∷ ys) = ground (arith, list_eqb_iff xs ys, s.same_iff x y)

  instance abbrev pub list_same : Same (List A)
  list_same = record { same = list_eqb; same_iff = list_eqb_iff }

  -- slices.Contains
  abbrev pub contains : List A → A → Bool
  contains xs a = contains_func (λ x. x == a) xs

  -- No item occurs twice.
  abbrev pub Distinct : List A → Type 0
  Distinct [] = Unit
  Distinct (x ∷ rest) = (contains rest x ≡ false) × Distinct rest

-- A Go string or []byte: a sequence of octets.
abbrev pub Octets : Type 0
Octets = List ℕ

-- The octets of an ASCII literal.
abbrev pub text : String → Octets
text String.[] = []
text (String.◌∷◌ c s) = code c ∷ text s
