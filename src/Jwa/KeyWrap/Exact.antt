-- ===== src/Jwa/KeyWrap/Exact.antt =====
-- `unwrap` of jwa/aes_key_wrap.go accepts exactly what `wrap` makes.
use golang_jwt_ci_test.Prelude.{
  ℕ, ◌+◌, ◌-◌, ◌*◌, ◌/◌, ◌%◌, ◌≤◌, ◌≡◌, refl, sym, ap, subst, ◌∙◌, ◌↔◌, inl, inr, true, List, ◌++◌,
  arith, Octets, take, drop, length, append-nil, take-append-drop, length-append, ◌==◌, nat_same,
  list_same, list_eqb_iff,
}
use golang_jwt_ci_test.Errors.{ok, Result-cases}
use golang_jwt_ci_test.Base64Url.{IsOctets}
use golang_jwt_ci_test.Jwa.Bytes.{Sized, Sized-append, Sized-take, Sized-drop}
use golang_jwt_ci_test.Jwa.Material.{Material, SymmetricAlgorithm, secret}
use golang_jwt_ci_test.Jwa.KeyWrap.{
  BlockCipher, IsCipher, registers, joined, wrap_rounds, unwrap_rounds, wrap, unwrap, wrap_key,
  decrypt_key, key_wrap_default_iv,
}
use golang_jwt_ci_test.Jwa.KeyWrap.Rounds.{
  State, Registers, take_eight, drop_eight, wrap_rounds-State, unwrap_rounds-State,
  unwrap_rounds-wrap_rounds, wrap_rounds-unwrap_rounds, length-wrap_rounds, length-unwrap_rounds,
}
use golang_jwt_ci_test.Jwa.KeyWrap.Registers.{
  drop_all, joined-registers, registers-Registers, registers-joined, length-joined, joined-IsOctets,
  length-registers,
}

iv_Sized : Sized 8 key_wrap_default_iv
iv_Sized = (refl, omega arith)

registers-joined_n :
    (n : ℕ) (rs : List Octets) → length rs ≡ n → Registers rs → registers n (joined rs) ≡ rs
registers-joined_n n rs e h = subst (λ k. registers k (joined rs) ≡ rs) e (registers-joined rs h)

module _ (c : BlockCipher) (laws : IsCipher c) (key : Octets) where
  abbrev wrapped : ℕ → Octets → Octets × List Octets
  wrapped n cek = wrap_rounds c key n 6 key_wrap_default_iv (registers n cek)

  abbrev opened : ℕ → Octets → Octets → Octets × List Octets
  opened n a r = unwrap_rounds c key n 6 a (registers n r)

  wrap-wrapped :
      (n : ℕ) (cek : Octets)
      → length cek ≡ n * 8
      → wrap c key cek ≡ (wrapped n cek).0 ++ joined (wrapped n cek).1
  unfolding wrap
  wrap-wrapped n cek h =
      let count : length cek / 8 ≡ n = omega arith in
      rw (count, drop_all (n * 8) cek (omega arith), append-nil)

  unwrap-opened :
      (n : ℕ) (a r : Octets)
      → Sized 8 a
      → length r ≡ n * 8
      → unwrap c key (a ++ r) ≡ (joined (opened n a r).1, (opened n a r).0 == key_wrap_default_iv)
  unfolding unwrap
  unwrap-opened n a r ha hr =
      let count : length (a ++ r) / 8 - 1 ≡ n = omega (arith, length-append a r, ha.0) in
      rw (count, take_eight a r ha, drop_eight a r ha, drop_all (n * 8) r (omega arith), append-nil)

  wrapped_facts :
      (n : ℕ) (cek : Octets)
      → Sized (n * 8) cek
      → State (wrapped n cek)
        × (length (wrapped n cek).1 ≡ n)
        × (length (joined (wrapped n cek).1) ≡ n * 8)
  wrapped_facts n cek h =
      let state =
        wrap_rounds-State c laws key n 6 key_wrap_default_iv (registers n cek) iv_Sized
          (registers-Registers n cek h.0 h.1) in
      let count : length (wrapped n cek).1 ≡ n =
        length-wrap_rounds c laws key n 6 key_wrap_default_iv (registers n cek)
        ∙ length-registers n cek in
      (state, count, omega (arith, length-joined (wrapped n cek).1 state.1, count))

  wrap-Sized : (n : ℕ) (cek : Octets) → Sized (n * 8) cek → Sized (8 + n * 8) (wrap c key cek)
  wrap-Sized n cek h =
      let facts = wrapped_facts n cek h in
      rw (wrap-wrapped n cek h.0)
        (Sized-append _ _ facts.0.0 (facts.2, joined-IsOctets (wrapped n cek).1 facts.0.1))

  -- A wrapped key is opened, and the check agrees.
  pub unwrap-wrap :
      (n : ℕ) (cek : Octets) → Sized (n * 8) cek → unwrap c key (wrap c key cek) ≡ (cek, true)
  unwrap-wrap n cek h =
      let facts = wrapped_facts n cek h in
      rw (
        wrap-wrapped n cek h.0,
        unwrap-opened n (wrapped n cek).0 (joined (wrapped n cek).1) facts.0.0 facts.2,
        registers-joined_n n (wrapped n cek).1 facts.1 facts.0.1,
        unwrap_rounds-wrap_rounds c laws key n 6 key_wrap_default_iv (registers n cek) iv_Sized
            (registers-Registers n cek h.0 h.1),
        joined-registers n cek h.0,
      )

  -- What is opened with a check that agrees is a wrapped key.
  pub wrap-unwrap :
      (n : ℕ) (a r cek : Octets)
      → Sized 8 a
      → Sized (n * 8) r
      → unwrap c key (a ++ r) ≡ (cek, true)
      → (wrap c key cek ≡ a ++ r) × Sized (n * 8) cek
  wrap-unwrap n a r cek ha hr h =
      let hs = registers-Registers n r hr.0 hr.1 in
      let state = unwrap_rounds-State c laws key n 6 a (registers n r) ha hs in
      let count : length (opened n a r).1 ≡ n =
        length-unwrap_rounds c laws key n 6 a (registers n r) ∙ length-registers n r in
      let sized : Sized (n * 8) (joined (opened n a r).1) =
        (omega (arith, length-joined (opened n a r).1 state.1, count), joined-IsOctets _ state.1) in
      let result : (joined (opened n a r).1, (opened n a r).0 == key_wrap_default_iv)
          ≡ (cek, true) =
        sym (unwrap-opened n a r ha hr.0) ∙ h in
      let cek_joined : joined (opened n a r).1 ≡ cek = ap (λ p. p.0) result in
      let agrees : (opened n a r).0 ≡ key_wrap_default_iv =
        (list_eqb_iff (opened n a r).0 key_wrap_default_iv).0 (ap (λ p. p.1) result) in
      let back : wrapped n (joined (opened n a r).1) ≡ (a, registers n r) =
        rw (registers-joined_n n (opened n a r).1 count state.1) (
          subst (λ t. wrap_rounds c key n 6 t (opened n a r).1 ≡ (a, registers n r)) agrees
            (wrap_rounds-unwrap_rounds c laws key n 6 a (registers n r) ha hs)) in
      subst (λ x. (wrap c key x ≡ a ++ r) × Sized (n * 8) x) cek_joined
        (
          wrap-wrapped n (joined (opened n a r).1) sized.0
              ∙ ap (λ (p : Octets × List Octets). p.0 ++ joined p.1) back
              ∙ ap (λ t. a ++ t) (joined-registers n r hr.0),
          sized,
        )

-- A DecryptKey that returned a CEK had a key, and passed each of its tests.
decrypt_key-eq_ok :
    (c : BlockCipher) (algorithm : SymmetricAlgorithm) (key : Material) (e cek : Octets) (size : ℕ)
    → decrypt_key c algorithm e key size ≡ ok cek
    → (kek : Octets) × (secret algorithm key ≡ ok kek)
      × (24 ≤ length e)
      × (length e % 8 ≡ 0)
      × (unwrap c kek e ≡ (cek, true))
      × (length cek ≡ size)
unfolding decrypt_key
decrypt_key-eq_ok c algorithm key e cek size h = elim (Result-cases (secret algorithm key)) [
  | inl (kek, found) ↦
      let h' = rw found at h in (kek, found, ground arith, ground arith, ground arith, ground arith)
  | inr (x, failed) ↦ cc (rw failed at h)
]

wrap_key-eq_ok :
    (c : BlockCipher) (algorithm : SymmetricAlgorithm) (key : Material) (e cek : Octets)
    → wrap_key c algorithm cek key ≡ ok e
    → (kek : Octets) × (secret algorithm key ≡ ok kek)
      × (16 ≤ length cek)
      × (length cek % 8 ≡ 0)
      × (wrap c kek cek ≡ e)
unfolding wrap_key
wrap_key-eq_ok c algorithm key e cek h = elim (Result-cases (secret algorithm key)) [
  | inl (kek, found) ↦
      let h' = rw found at h in (kek, found, ground arith, ground arith, ground arith)
  | inr (x, failed) ↦ cc (rw failed at h)
]

-- The same over a whole encrypted key.
opened_whole :
    (c : BlockCipher) (laws : IsCipher c) (kek e cek : Octets)
    → IsOctets e
    → 24 ≤ length e
    → length e % 8 ≡ 0
    → unwrap c kek e ≡ (cek, true)
    → (wrap c kek cek ≡ e) × Sized ((length e / 8 - 1) * 8) cek
opened_whole c laws kek e cek he long whole h =
    let n = length e / 8 - 1 in
    let split : take 8 e ++ drop 8 e ≡ e = take-append-drop 8 e in
    let sized : Sized (8 + n * 8) e = (omega arith, he) in
    subst (λ t. (wrap c kek cek ≡ t) × Sized (n * 8) cek) split
      (wrap-unwrap c laws kek n (take 8 e) (drop 8 e) cek (Sized-take 8 (n * 8) e sized)
        (Sized-drop 8 (n * 8) e sized) (rw split h))

-- WrapKey and DecryptKey are inverse, whatever the key. For a CEK of octets and the octets of an
-- encrypted key, DecryptKey returns the CEK if and only if WrapKey makes that encrypted key from
-- that CEK and the CEK has the length of the content encryption algorithm. So DecryptKey accepts
-- no encrypted key but the one that WrapKey writes, and rejects any other length, check or size.
pub decrypt_key_iff-wrap_key :
    (c : BlockCipher) (laws : IsCipher c) (algorithm : SymmetricAlgorithm) (key : Material)
    (encrypted_key cek : Octets) (size : ℕ)
    → IsOctets encrypted_key
    → IsOctets cek
    → (decrypt_key c algorithm encrypted_key key size ≡ ok cek)
      ↔ ((wrap_key c algorithm cek key ≡ ok encrypted_key) × (length cek ≡ size))
unfolding wrap_key decrypt_key
decrypt_key_iff-wrap_key c laws algorithm key e cek size he hc = (
  λ h.
      let (kek, found, long, whole, opened, sized) =
        decrypt_key-eq_ok c algorithm key e cek size h in
      let facts = opened_whole c laws kek e cek he long whole opened in
      (wrap_key_lem kek found facts.0 (omega (arith, facts.1.0)) (omega (arith, facts.1.0)), sized),
  λ h.
      let (kek, found, long, whole, made) = wrap_key-eq_ok c algorithm key e cek h.0 in
      let n = length cek / 8 in
      let sized : Sized (n * 8) cek = (omega arith, hc) in
      let written : Sized (8 + n * 8) e =
        subst (λ t. Sized (8 + n * 8) t) made (wrap-Sized c laws kek n cek sized) in
      let opened : unwrap c kek e ≡ (cek, true) =
        subst (λ t. unwrap c kek t ≡ (cek, true)) made (unwrap-wrap c laws kek n cek sized) in
      decrypt_key_lem kek found (omega (arith, written.0)) (omega (arith, written.0)) opened h.1,
)
  where
    wrap_key_lem :
        (kek : Octets)
        → secret algorithm key ≡ ok kek
        → wrap c kek cek ≡ e
        → 16 ≤ length cek
        → length cek % 8 ≡ 0
        → wrap_key c algorithm cek key ≡ ok e
    wrap_key_lem kek found made long whole = rw found (ground arith)

    decrypt_key_lem :
        (kek : Octets)
        → secret algorithm key ≡ ok kek
        → 24 ≤ length e
        → length e % 8 ≡ 0
        → unwrap c kek e ≡ (cek, true)
        → length cek ≡ size
        → decrypt_key c algorithm e key size ≡ ok cek
    decrypt_key_lem kek found long whole opened sized = rw found (ground arith)
