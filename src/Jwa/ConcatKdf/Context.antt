-- ===== src/Jwa/ConcatKdf/Context.antt =====
-- The context of jwa/concat_kdf.go is read in one way only.
use golang_jwt_ci_test.Prelude.{
  ℕ, ◌%◌, ◌^◌, ◌<◌, ◌≡◌, refl, ap, sym, ◌∙◌, [], ◌∷◌, ◌++◌, arith, Octets, length, drop, get_or,
  append_assoc,
}
use golang_jwt_ci_test.Jwa.Bytes.{put_uint32}
use golang_jwt_ci_test.Jwa.ConcatKdf.{length_prefixed, other_info}

abbrev cell : ℕ → Octets → ℕ
cell i xs = get_or xs i 0

-- Four octets give a word back.
put_uint32-injective :
    (m n : ℕ) (r s : Octets)
    → m < 2 ^ 32
    → n < 2 ^ 32
    → put_uint32 m ++ r ≡ put_uint32 n ++ s
    → (m ≡ n) × (r ≡ s)
unfolding put_uint32
put_uint32-injective m n r s hm hn e =
    (omega (arith, ap (cell 0) e, ap (cell 1) e, ap (cell 2) e, ap (cell 3) e), ap (drop 4) e)

append_cancel :
    (xs ys r s : Octets) → length xs ≡ length ys → xs ++ r ≡ ys ++ s → (xs ≡ ys) × (r ≡ s)
append_cancel [] [] r s h e = (refl, e)
append_cancel [] (y ∷ ys) r s h e = absurd (omega arith)
append_cancel (x ∷ xs) [] r s h e = absurd (omega arith)
append_cancel (x ∷ xs) (y ∷ ys) r s h e =
    let rest = append_cancel xs ys r s (omega arith) (ap (drop 1) e) in
    let head : x ≡ y = ap (cell 0) e in (cc, rest.1)

length_prefixed-injective :
    (x y r s : Octets)
    → length x < 2 ^ 32
    → length y < 2 ^ 32
    → length_prefixed x ++ r ≡ length_prefixed y ++ s
    → (x ≡ y) × (r ≡ s)
unfolding length_prefixed
length_prefixed-injective x y r s hx hy e =
    let shifted : put_uint32 (length x % 2 ^ 32) ++ (x ++ r)
        ≡ put_uint32 (length y % 2 ^ 32) ++ (y ++ s) =
      sym (append_assoc (put_uint32 (length x % 2 ^ 32)) x r)
      ∙ e
      ∙ append_assoc (put_uint32 (length y % 2 ^ 32)) y s in
    let parts = put_uint32-injective _ _ (x ++ r) (y ++ s) (omega arith) (omega arith) shifted in
    append_cancel x y r s (omega (arith, parts.0)) parts.1

-- Two contexts with the same octets have the same algorithm, the same two parties and the same key
-- length, for values that fit their 32-bit prefixes. So no party can pass octets of its own value
-- off as another field.
pub other_info-injective :
    (a u v a' u' v' : Octets) (size size' : ℕ)
    → length a < 2 ^ 32
    → length a' < 2 ^ 32
    → length u < 2 ^ 32
    → length u' < 2 ^ 32
    → length v < 2 ^ 32
    → length v' < 2 ^ 32
    → size < 2 ^ 29
    → size' < 2 ^ 29
    → other_info a u v size ≡ other_info a' u' v' size'
    → (a ≡ a') × (u ≡ u') × (v ≡ v') × (size ≡ size')
unfolding other_info
other_info-injective a u v a' u' v' size size' ha ha' hu hu' hv hv' hs hs' e =
    let (a_eq, e1) = length_prefixed-injective a a' _ _ ha ha' e in
    let (u_eq, e2) = length_prefixed-injective u u' _ _ hu hu' e1 in
    let (v_eq, e3) = length_prefixed-injective v v' _ _ hv hv' e2 in
    let word = put_uint32-injective _ _ [] [] (omega arith) (omega arith) (ap (λ t. t ++ []) e3) in
    (a_eq, u_eq, v_eq, omega (arith, word.0))
