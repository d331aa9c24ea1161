-- ===== src/Jwa/Bytes.antt =====
-- encoding/binary's BigEndian.Uint64, PutUint64 and AppendUint32.
use golang_jwt_ci_test.Prelude.{
  ℕ, ◌+◌, ◌*◌, ◌/◌, ◌%◌, ◌^◌, ◌<◌, ◌≡◌, refl, [], ◌∷◌, arith, Octets, length, take, drop, ◌++◌,
  zero, suc, length-append, length-take, length-drop,
}
use golang_jwt_ci_test.Base64Url.{IsOctets}

-- binary.BigEndian.Uint64; it is called on slices of eight octets, and panics on a shorter one.
unfoldable pub uint64 : Octets → ℕ
uint64 (a ∷ b ∷ c ∷ d ∷ e ∷ f ∷ g ∷ h ∷ rest) =
    a * 2 ^ 56 + b * 2 ^ 48 + c * 2 ^ 40 + d * 2 ^ 32 + e * 2 ^ 24 + f * 2 ^ 16 + g * 2 ^ 8 + h
uint64 _ = 0

-- binary.BigEndian.PutUint64
unfoldable pub put_uint64 : ℕ → Octets
put_uint64 v =
    (v / 2 ^ 56 % 256)
    ∷ (v / 2 ^ 48 % 256)
    ∷ (v / 2 ^ 40 % 256)
    ∷ (v / 2 ^ 32 % 256)
    ∷ (v / 2 ^ 24 % 256)
    ∷ (v / 2 ^ 16 % 256)
    ∷ (v / 2 ^ 8 % 256)
    ∷ (v % 256)
    ∷ []

-- binary.BigEndian.AppendUint32 to nil
unfoldable pub put_uint32 : ℕ → Octets
put_uint32 v = (v / 2 ^ 24 % 256) ∷ (v / 2 ^ 16 % 256) ∷ (v / 2 ^ 8 % 256) ∷ (v % 256) ∷ []

-- A slice of exactly n octets.
abbrev pub Sized : ℕ → Octets → Type 0
Sized n xs = (length xs ≡ n) × IsOctets xs

pub put_uint64-Sized : (v : ℕ) → Sized 8 (put_uint64 v)
unfolding put_uint64
put_uint64-Sized v = (refl, omega arith)

pub uint64-put_uint64 : (v : ℕ) → v < 2 ^ 64 → uint64 (put_uint64 v) ≡ v
unfolding uint64 put_uint64
uint64-put_uint64 v h = omega arith

pub put_uint32-Sized : (v : ℕ) → Sized 4 (put_uint32 v)
unfolding put_uint32
put_uint32-Sized v = (refl, omega arith)

-- Of eight octets the value is a word, and writing it gives the octets back.
pub uint64-lt : (xs : Octets) → Sized 8 xs → uint64 xs < 2 ^ 64
unfolding uint64
uint64-lt (a ∷ b ∷ c ∷ d ∷ e ∷ f ∷ g ∷ h ∷ []) s = omega arith
uint64-lt _ s = absurd (omega arith)

-- Eight cells, one by one.
cells :
    {a b c d e f g h a' b' c' d' e' f' g' h' : ℕ}
    → a ≡ a'
    → b ≡ b'
    → c ≡ c'
    → d ≡ d'
    → e ≡ e'
    → f ≡ f'
    → g ≡ g'
    → h ≡ h'
    → ◌≡◌ {A = Octets}
        (a ∷ b ∷ c ∷ d ∷ e ∷ f ∷ g ∷ h ∷ [])
        (a' ∷ b' ∷ c' ∷ d' ∷ e' ∷ f' ∷ g' ∷ h' ∷ [])
cells p q r s t u v w = cc

pub put_uint64-uint64 : (xs : Octets) → Sized 8 xs → put_uint64 (uint64 xs) ≡ xs
unfolding uint64 put_uint64
put_uint64-uint64 (a ∷ b ∷ c ∷ d ∷ e ∷ f ∷ g ∷ h ∷ []) s =
    cells (omega arith) (omega arith) (omega arith) (omega arith) (omega arith) (omega arith)
      (omega arith) (omega arith)
put_uint64-uint64 _ s = absurd (omega arith)

pub IsOctets-append : (xs ys : Octets) → IsOctets xs → IsOctets ys → IsOctets (xs ++ ys)
IsOctets-append [] ys h k = k
IsOctets-append (x ∷ xs) ys h k = (h.0, IsOctets-append xs ys h.1 k)

pub IsOctets-take : (n : ℕ) (xs : Octets) → IsOctets xs → IsOctets (take n xs)
IsOctets-take zero xs h = tt
IsOctets-take (suc n) [] h = tt
IsOctets-take (suc n) (x ∷ xs) h = (h.0, IsOctets-take n xs h.1)

pub IsOctets-drop : (n : ℕ) (xs : Octets) → IsOctets xs → IsOctets (drop n xs)
IsOctets-drop zero xs h = h
IsOctets-drop (suc n) [] h = tt
IsOctets-drop (suc n) (x ∷ xs) h = IsOctets-drop n xs h.1

pub Sized-append : {m n : ℕ} (xs ys : Octets) → Sized m xs → Sized n ys → Sized (m + n) (xs ++ ys)
Sized-append xs ys h k =
    (omega (arith, length-append xs ys, h.0, k.0), IsOctets-append xs ys h.1 k.1)

pub Sized-take : (m n : ℕ) (xs : Octets) → Sized (m + n) xs → Sized m (take m xs)
Sized-take m n xs h = (omega (arith, length-take m xs, h.0), IsOctets-take m xs h.1)

pub Sized-drop : (m n : ℕ) (xs : Octets) → Sized (m + n) xs → Sized n (drop m xs)
Sized-drop m n xs h = (omega (arith, length-drop m xs, h.0), IsOctets-drop m xs h.1)
