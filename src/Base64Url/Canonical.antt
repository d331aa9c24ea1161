-- ===== src/Base64Url/Canonical.antt =====
-- The strict decoders of internal/base64url/base64url.go read at most one text for each value.
use golang_jwt_ci_test.Prelude.{
  ℕ, ◌+◌, ◌*◌, ◌/◌, ◌%◌, ◌<◌, ◌≡◌, refl, [], ◌∷◌, arith, Octets, contains_func, Bool-cases, inl,
  inr, ◌↔◌, subst,
}
use golang_jwt_ci_test.Errors.{Result, ok, err, ◌>>=◌}
use golang_jwt_ci_test.Base64Url.{
  Alphabet, url, encode_quanta, encode_symbol, decode_raw, is_line_break, encode, decode, IsOctets,
  value, full,
}
use golang_jwt_ci_test.Base64Url.Quanta.{value-eq_ok}
use golang_jwt_ci_test.Base64Url.RoundTrip.{drop_line_breaks-eq_self, decode-encode}

-- `r` is `ok a` with `P a`, or an error.
abbrev Yields {ℓ} : {A : Type ℓ} → (A → Type 0) → Result A → Type 0
Yields P (ok a) = P a
Yields P (err e) = Unit

value-Yields : (a : Alphabet) (c : ℕ) → Yields (λ v. (encode_symbol a v ≡ c) × (v < 64)) (value a c)
value-Yields a c = go (value a c) refl
  where
    go : (r : Result ℕ) → value a c ≡ r → Yields (λ v. (encode_symbol a v ≡ c) × (v < 64)) r
    go (ok v) e = value-eq_ok a c v e
    go (err x) e = tt

-- The octets of a full quantum give back its four values.
encode_full :
    (v w x y : ℕ) (rest : Octets)
    → v < 64
    → w < 64
    → x < 64
    → y < 64
    → encode_quanta ((v * 4 + w / 16) ∷ (w % 16 * 16 + x / 4) ∷ (x % 4 * 64 + y) ∷ rest)
      ≡ encode_symbol url v
        ∷ encode_symbol url w
        ∷ encode_symbol url x
        ∷ encode_symbol url y
        ∷ encode_quanta rest
unfolding encode_quanta
encode_full v w x y rest hv hw hx hy =
    let first : (v * 4 + w / 16) / 4 ≡ v = omega arith in
    let second : (v * 4 + w / 16) % 4 * 16 + (w % 16 * 16 + x / 4) / 16 ≡ w = omega arith in
    let third : (w % 16 * 16 + x / 4) % 16 * 4 + (x % 4 * 64 + y) / 64 ≡ x = omega arith in
    let fourth : (x % 4 * 64 + y) % 64 ≡ y = omega arith in rw (first, second, third, fourth)

abbrev Quantum : ℕ → ℕ → ℕ → ℕ → (Octets → Octets) → Type 0
Quantum p q r s f =
    (rest : Octets)
    → IsOctets rest
    → (encode_quanta (f rest) ≡ p ∷ q ∷ r ∷ s ∷ encode_quanta rest) × IsOctets (f rest)

full-Quantum : (p q r s : ℕ) → Yields (Quantum p q r s) (full url p q r s)
full-Quantum p q r s =
    go (value url p) (value url q) (value url r) (value url s) refl refl refl refl
  where
    go :
        (a b c d : Result ℕ)
        → value url p ≡ a
        → value url q ≡ b
        → value url r ≡ c
        → value url s ≡ d
        → Yields (Quantum p q r s) (do
          v ← a
          w ← b
          x ← c
          y ← d
          ok (λ rest. (v * 4 + w / 16) ∷ (w % 16 * 16 + x / 4) ∷ (x % 4 * 64 + y) ∷ rest))
    go (err e) b c d _ _ _ _ = tt
    go (ok v) (err e) c d _ _ _ _ = tt
    go (ok v) (ok w) (err e) d _ _ _ _ = tt
    go (ok v) (ok w) (ok x) (err e) _ _ _ _ = tt
    go (ok v) (ok w) (ok x) (ok y) hp hq hr hs =
        let vp = value-eq_ok url p v hp in
        let wq = value-eq_ok url q w hq in
        let xr = value-eq_ok url r x hr in
        let ys = value-eq_ok url s y hs in
        λ rest h. (
          cc (encode_full v w x y rest vp.1 wq.1 xr.1 ys.1, vp.0, wq.0, xr.0, ys.0),
          (omega arith, (omega arith, (omega arith, h))),
        )

-- The text that a decoded value was read from is the encoding of the value.
encode_quanta-decode_raw :
    (s : Octets) → Yields (λ xs. (encode_quanta xs ≡ s) × IsOctets xs) (decode_raw s)
unfolding decode_raw encode_quanta
encode_quanta-decode_raw [] = (refl, tt)
encode_quanta-decode_raw (p ∷ []) = tt
encode_quanta-decode_raw (p ∷ q ∷ []) = ground (arith, value-Yields url p, value-Yields url q)
encode_quanta-decode_raw (p ∷ q ∷ r ∷ []) =
    ground (arith, value-Yields url p, value-Yields url q, value-Yields url r)
encode_quanta-decode_raw (p ∷ q ∷ r ∷ s ∷ rest) =
    go (full url p q r s) (decode_raw rest) (full-Quantum p q r s) (encode_quanta-decode_raw rest)
  where
    go :
        (a : Result (Octets → Octets)) (b : Result Octets)
        → Yields (Quantum p q r s) a
        → Yields (λ xs. (encode_quanta xs ≡ rest) × IsOctets xs) b
        → Yields
            (λ xs. (encode_quanta xs ≡ p ∷ q ∷ r ∷ s ∷ rest) × IsOctets xs)
            (do quantum ← a; octets ← b; ok (quantum octets))
    go (err e) b _ _ = tt
    go (ok f) (err e) _ _ = tt
    go (ok f) (ok xs) hf hx = (cc ((hf xs hx.1).0, hx.0), (hf xs hx.1).1)

-- What the decoder accepts is the encoding of what it returns, octet for octet.
encode-decode :
    (encoded octets : Octets)
    → decode encoded ≡ ok octets
    → (encode octets ≡ encoded) × IsOctets octets
unfolding encode decode
encode-decode s xs h = elim (Bool-cases (contains_func is_line_break s)) [
  | inl found ↦ cc (rw found at h)
  | inr clean ↦
      let h' : decode_raw s ≡ ok xs = rw (clean, drop_line_breaks-eq_self s clean) at h in
      rw h' at (encode_quanta-decode_raw s)
]

-- The decoder is the exact inverse of the encoder: `decode` accepts a text and returns some octets
-- if and only if the text is, character for character, the encoding of those octets (each below
-- 256). So no two texts decode to one value, and none with a line break is accepted.
pub decode_iff-encode :
    (encoded octets : Octets)
    → (decode encoded ≡ ok octets) ↔ ((encode octets ≡ encoded) × IsOctets octets)
decode_iff-encode s xs =
    (encode-decode s xs, λ h. subst (λ t. decode t ≡ ok xs) h.0 (decode-encode xs h.1))
