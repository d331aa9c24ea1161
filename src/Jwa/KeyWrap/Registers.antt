-- ===== src/Jwa/KeyWrap/Registers.antt =====
-- The registers of jwa/aes_key_wrap.go as slices of one octet string.
use golang_jwt_ci_test.Prelude.{
  ℕ, zero, suc, ◌*◌, ◌≤◌, ◌≡◌, refl, ap, List, [], ◌∷◌, arith, Octets, drop, length,
  take-append-drop, length-append, length-drop, length-take,
}
use golang_jwt_ci_test.Base64Url.{IsOctets}
use golang_jwt_ci_test.Jwa.Bytes.{IsOctets-take, IsOctets-drop, IsOctets-append}
use golang_jwt_ci_test.Jwa.KeyWrap.{registers, joined}
use golang_jwt_ci_test.Jwa.KeyWrap.Rounds.{Registers, take_eight, drop_eight}

pub drop_all {ℓ} : {A : Type ℓ} (k : ℕ) (xs : List A) → length xs ≤ k → drop k xs ≡ []
drop_all zero [] h = refl
drop_all zero (x ∷ xs) h = absurd (omega arith)
drop_all (suc k) [] h = refl
drop_all (suc k) (x ∷ xs) h = drop_all k xs (omega arith)

eq_nil {ℓ} : {A : Type ℓ} (xs : List A) → length xs ≡ 0 → xs ≡ []
eq_nil [] h = refl
eq_nil (x ∷ xs) h = absurd (omega arith)

pub joined-registers : (n : ℕ) (xs : Octets) → length xs ≡ n * 8 → joined (registers n xs) ≡ xs
unfolding joined registers
joined-registers zero xs h = let e : xs ≡ [] = eq_nil xs (omega arith) in rw e
joined-registers (suc n) xs h =
    rw (joined-registers n (drop 8 xs) (omega (arith, length-drop 8 xs))) (take-append-drop 8 xs)

pub registers-Registers :
    (n : ℕ) (xs : Octets) → length xs ≡ n * 8 → IsOctets xs → Registers (registers n xs)
unfolding registers
registers-Registers zero xs h k = tt
registers-Registers (suc n) xs h k = (
  (omega (arith, length-take 8 xs), IsOctets-take 8 xs k),
  registers-Registers n (drop 8 xs) (omega (arith, length-drop 8 xs)) (IsOctets-drop 8 xs k),
)

pub registers-joined : (rs : List Octets) → Registers rs → registers (length rs) (joined rs) ≡ rs
unfolding joined registers
registers-joined [] h = refl
registers-joined (r ∷ rs) h =
    rw (take_eight r (joined rs) h.0, drop_eight r (joined rs) h.0)
      (ap (◌∷◌ r) (registers-joined rs h.1))

pub length-joined : (rs : List Octets) → Registers rs → length (joined rs) ≡ length rs * 8
unfolding joined
length-joined [] h = refl
length-joined (r ∷ rs) h = omega (arith, length-append r (joined rs), length-joined rs h.1, h.0.0)

pub joined-IsOctets : (rs : List Octets) → Registers rs → IsOctets (joined rs)
unfolding joined
joined-IsOctets [] h = tt
joined-IsOctets (r ∷ rs) h = IsOctets-append r (joined rs) h.0.1 (joined-IsOctets rs h.1)

pub length-registers : (n : ℕ) (xs : Octets) → length (registers n xs) ≡ n
unfolding registers
length-registers zero xs = refl
length-registers (suc n) xs = ap suc (length-registers n (drop 8 xs))
