-- ===== src/Prelude/Xor.antt =====
-- Laws of `^` on words, for every width. The native operation means `bitwise`, a recursion on
-- binary digits with fuel; the first lemmas drop the fuel.
use Prim.Native.Nat.{
  ℕ, zero, suc, ◌+◌, ◌-◌, ◌*◌, ◌/◌, ◌%◌, ◌^◌, ◌≤◌, ◌<◌, bit_xor, digits, bit_xor-bitwise, differ,
}
use native.Mathlib.Nat.{le_refl, pow-suc}
use mathlib.Core.Path.{◌≡◌, refl, ◌∙◌}
use native.Mathlib.Omega.{arith}

abbrev xor_digits : ℕ → ℕ → ℕ → ℕ
xor_digits = digits (λ y. y) differ

-- One unit of fuel more changes nothing, once there is a unit for each value of the first word.
fuel_suc : (n a b : ℕ) → a ≤ n → xor_digits (suc n) a b ≡ xor_digits n a b
fuel_suc zero zero b h = refl
fuel_suc zero (suc a) b h = absurd (omega arith)
fuel_suc (suc n) zero b h = refl
fuel_suc (suc n) (suc a) b h = rw (fuel_suc n (suc a / 2) (b / 2) (omega arith))

fuel_grow : (k m a b : ℕ) → a ≤ m → (n : ℕ) → n ≡ k + m → xor_digits n a b ≡ xor_digits m a b
fuel_grow zero m a b h n e = let same : n ≡ m = omega arith in rw same
fuel_grow (suc k) m a b h zero e = absurd (omega arith)
fuel_grow (suc k) m a b h (suc n) e =
    fuel_suc n a b (omega arith) ∙ fuel_grow k m a b h n (omega arith)

fuel_halved : (a b : ℕ) → xor_digits a (suc a / 2) b ≡ xor_digits (suc a / 2) (suc a / 2) b
fuel_halved a b = fuel_grow (a - suc a / 2) (suc a / 2) (suc a / 2) b (le_refl _) a (omega arith)

zero-bit_xor : (b : ℕ) → bit_xor 0 b ≡ b
zero-bit_xor b = bit_xor-bitwise 0 b

-- The lowest digits differ or they do not.
abbrev digit : ℕ → ℕ → ℕ
digit x y = (x + y) % 2

differ-digit : (x y : ℕ) → x < 2 → y < 2 → differ x y ≡ digit x y
differ-digit x y h k = go x y h k
  where
    go : (x y : ℕ) → x < 2 → y < 2 → differ x y ≡ digit x y
    go zero y h k = omega arith
    go (suc zero) zero h k = refl
    go (suc zero) (suc zero) h k = refl
    go (suc zero) (suc (suc y)) h k = absurd (omega arith)
    go (suc (suc x)) y h k = absurd (omega arith)

bit_xor_step : (a b : ℕ) → bit_xor a b ≡ bit_xor (a / 2) (b / 2) * 2 + digit (a % 2) (b % 2)
bit_xor_step zero b = omega (arith, zero-bit_xor b, zero-bit_xor (b / 2))
bit_xor_step (suc a) b = omega (
  arith,
  bit_xor-bitwise (suc a) b,
  bit_xor-bitwise (suc a / 2) (b / 2),
  fuel_halved a (b / 2),
  differ-digit (suc a % 2) (b % 2) (omega arith) (omega arith),
)

bit_xor-lt_fuel : (k a b : ℕ) → a < 2 ^ k → b < 2 ^ k → bit_xor a b < 2 ^ k
bit_xor-lt_fuel zero zero b h g = omega (arith, zero-bit_xor b)
bit_xor-lt_fuel zero (suc a) b h g = absurd (omega arith)
bit_xor-lt_fuel (suc k) a b h g = omega (
  arith,
  pow-suc 2 k,
  bit_xor_step a b,
  bit_xor-lt_fuel k (a / 2) (b / 2) (omega (arith, pow-suc 2 k)) (omega (arith, pow-suc 2 k)),
)

-- The exclusive or of two words of k bits is a word of k bits.
pub bit_xor-lt : (k : ℕ) {a b : ℕ} → a < 2 ^ k → b < 2 ^ k → bit_xor a b < 2 ^ k
bit_xor-lt k {a} {b} h g = bit_xor-lt_fuel k a b h g

bit_xor_twice_fuel : (k a b : ℕ) → a < 2 ^ k → b < 2 ^ k → bit_xor (bit_xor a b) b ≡ a
bit_xor_twice_fuel zero zero zero h g = refl
bit_xor_twice_fuel zero zero (suc b) h g = absurd (omega arith)
bit_xor_twice_fuel zero (suc a) b h g = absurd (omega arith)
bit_xor_twice_fuel (suc k) a b h g =
    let rest =
      bit_xor_twice_fuel k (a / 2) (b / 2) (omega (arith, pow-suc 2 k))
        (omega (arith, pow-suc 2 k)) in
    let low : bit_xor a b / 2 ≡ bit_xor (a / 2) (b / 2) = omega (arith, bit_xor_step a b) in
    let bit : bit_xor a b % 2 ≡ digit (a % 2) (b % 2) = omega (arith, bit_xor_step a b) in
    rw (bit_xor_step (bit_xor a b) b, low, bit, rest) (omega arith)

-- The same word twice is no change.
pub bit_xor_twice : (k a b : ℕ) → a < 2 ^ k → b < 2 ^ k → bit_xor (bit_xor a b) b ≡ a
bit_xor_twice k a b h g = bit_xor_twice_fuel k a b h g
