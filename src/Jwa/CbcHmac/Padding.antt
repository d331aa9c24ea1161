-- ===== src/Jwa/CbcHmac/Padding.antt =====
-- The padding of jwa/aes_cbc_hmac_sha_2.go: `unpad` accepts exactly what `pad` writes.
use golang_jwt_ci_test.Prelude.{
  ℕ, zero, suc, ◌+◌, ◌-◌, ◌%◌, ◌≤◌, ◌<◌, ◌≡◌, refl, ap, subst, ◌∙◌, ◌↔◌, true, some, [], ◌∷◌, ◌++◌,
  arith, Octets, length, take, drop, replicate, get_or, length-append, length-replicate,
  take-append-drop, take-append, length-take,
}
use golang_jwt_ci_test.Jwa.CbcHmac.{pad, unpad, padding_agrees}

-- What the loop finds: each of the counted octets is the padding octet.
agrees→eq :
    (p : Octets) (v n i : ℕ)
    → padding_agrees p v n ≡ true
    → i < n
    → suc i ≤ v
    → get_or p (length p - suc i) 0 ≡ v
unfolding padding_agrees
agrees→eq p v zero i h lt le = absurd (omega arith)
agrees→eq p v (suc n) i h lt le = ground (arith, agrees→eq p v n i)

drop-get_or : (n : ℕ) (p : Octets) → n < length p → drop n p ≡ get_or p n 0 ∷ drop (suc n) p
drop-get_or zero [] h = absurd (omega arith)
drop-get_or zero (x ∷ xs) h = refl
drop-get_or (suc n) [] h = absurd (omega arith)
drop-get_or (suc n) (x ∷ xs) h = drop-get_or n xs (omega arith)

drop-length : (p : Octets) → drop (length p) p ≡ []
drop-length [] = refl
drop-length (x ∷ xs) = drop-length xs

-- So the last octets are the padding.
drop-eq-replicate :
    (p : Octets) (v k : ℕ)
    → k ≤ length p
    → ((i : ℕ) → i < k → get_or p (length p - suc i) 0 ≡ v)
    → drop (length p - k) p ≡ replicate k v
drop-eq-replicate p v zero h all =
    let all_of : length p - 0 ≡ length p = omega arith in rw all_of (drop-length p)
drop-eq-replicate p v (suc k) h all =
    let here : suc (length p - suc k) ≡ length p - k = omega arith in
    drop-get_or (length p - suc k) p (omega arith)
    ∙ (rw (all k (omega arith), here)
        (ap (◌∷◌ v) (drop-eq-replicate p v k (omega arith) (λ i lt. all i (omega arith)))))

get_or-replicate : (k v i : ℕ) → i < k → get_or (replicate k v) i 0 ≡ v
get_or-replicate zero v i h = absurd (omega arith)
get_or-replicate (suc k) v zero h = refl
get_or-replicate (suc k) v (suc i) h = get_or-replicate k v i (omega arith)

get_or-append : (xs ys : Octets) (i : ℕ) → get_or (xs ++ ys) (length xs + i) 0 ≡ get_or ys i 0
get_or-append [] ys i = let e : 0 + i ≡ i = omega arith in rw e
get_or-append (x ∷ xs) ys i =
    let e : suc (length xs) + i ≡ suc (length xs + i) = omega arith in rw e (get_or-append xs ys i)

padding_agrees-of_eq :
    (p : Octets) (v n : ℕ)
    → ((i : ℕ) → suc i ≤ v → get_or p (length p - suc i) 0 ≡ v)
    → padding_agrees p v n ≡ true
unfolding padding_agrees
padding_agrees-of_eq p v zero all = refl
padding_agrees-of_eq p v (suc n) all = ground (arith, padding_agrees-of_eq p v n all, all n)

-- An octet of the padding, counted from the end.
padded_octet :
    (x : Octets) (v i : ℕ)
    → suc i ≤ v
    → get_or (x ++ replicate v v) (length (x ++ replicate v v) - suc i) 0 ≡ v
padded_octet x v i h =
    let total : length (x ++ replicate v v) ≡ length x + v =
      omega (arith, length-append x (replicate v v), length-replicate v v) in
    let place : length x + v - suc i ≡ length x + (v - suc i) = omega arith in
    rw (total, place, get_or-append x (replicate v v) (v - suc i))
      (get_or-replicate v v _ (omega arith))

unpad-pad : (x : Octets) → unpad (pad x) ≡ some x
unfolding unpad pad
unpad-pad x =
    let v = 16 - length x % 16 in
    let p = x ++ replicate v v in
    let total : length p ≡ length x + v =
      omega (arith, length-append x (replicate v v), length-replicate v v) in
    let last : get_or p (length p - 1) 0 ≡ v = padded_octet x v 0 (omega arith) in
    let agree : padding_agrees p v 16 ≡ true = padding_agrees-of_eq p v 16 (padded_octet x v) in
    let kept : length p - v ≡ length x = omega arith in
    rw (last, agree, kept, take-append x (replicate v v), total) (ground arith)

-- The last octet.
abbrev count : Octets → ℕ
count p = get_or p (length p - 1) 0

unpad-eq_some :
    (p x : Octets)
    → unpad p ≡ some x
    → (1 ≤ count p)
      × (count p ≤ 16)
      × (16 ≤ length p)
      × (length p % 16 ≡ 0)
      × (padding_agrees p (count p) 16 ≡ true)
      × (take (length p - count p) p ≡ x)
unfolding unpad
unpad-eq_some p x h =
    (ground arith, ground arith, ground arith, ground arith, ground arith, ground arith)

pad-unpad : (p x : Octets) → unpad p ≡ some x → pad x ≡ p
unfolding pad
pad-unpad p x h =
    let (low, high, long, whole, agree, kept) = unpad-eq_some p x h in
    let v = count p in
    let tail : drop (length p - v) p ≡ replicate v v =
      drop-eq-replicate p v v (omega arith)
        (λ i lt. agrees→eq p v 16 i agree (omega arith) (omega arith)) in
    let size : length x ≡ length p - v =
      omega (arith, ap length kept, length-take (length p - v) p) in
    let amount : 16 - length x % 16 ≡ v = omega arith in
    rw (amount, ← tail, ← kept) (take-append-drop (length p - v) p)

-- The padding and its check are inverse: `unpad` returns a plaintext if and only if its input is
-- that plaintext padded, so no other padding is accepted.
pub unpad_iff-pad :
    (padded plaintext : Octets) → (unpad padded ≡ some plaintext) ↔ (pad plaintext ≡ padded)
unpad_iff-pad p x = (pad-unpad p x, λ e. subst (λ t. unpad t ≡ some x) e (unpad-pad x))
