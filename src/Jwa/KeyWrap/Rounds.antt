-- ===== src/Jwa/KeyWrap/Rounds.antt =====
-- The steps and rounds of jwa/aes_key_wrap.go: `unwrap` runs those of `wrap` backwards.
use Prim.Native.Nat.{bit_xor}
use golang_jwt_ci_test.Prelude.{
  ℕ, zero, suc, ◌^◌, ◌<◌, ◌≡◌, refl, subst, ap, ◌∙◌, List, [], ◌∷◌, ◌++◌, arith, Octets, All, take,
  drop, length, take-append-drop, take-append, drop-append,
}
use golang_jwt_ci_test.Prelude.Xor.{bit_xor-lt, bit_xor_twice}
use golang_jwt_ci_test.Jwa.Bytes.{
  uint64, put_uint64, Sized, put_uint64-Sized, uint64-put_uint64, uint64-lt, put_uint64-uint64,
  Sized-append, Sized-take, Sized-drop,
}
use golang_jwt_ci_test.Jwa.KeyWrap.{
  BlockCipher, IsCipher, counter, wrap_step, unwrap_step, wrap_round, unwrap_round, wrap_rounds,
  unwrap_rounds,
}

abbrev pub Registers : List Octets → Type 0
Registers = All (Sized 8)

abbrev pub State : Octets × List Octets → Type 0
State (a, rs) = Sized 8 a × Registers rs

-- Eight octets with a word added twice.
put_xor_twice :
    (t : ℕ) (xs : Octets)
    → t < 2 ^ 64
    → Sized 8 xs
    → put_uint64 (bit_xor (uint64 (put_uint64 (bit_xor (uint64 xs) t))) t) ≡ xs
put_xor_twice t xs ht h =
    rw
      (
        uint64-put_uint64 (bit_xor (uint64 xs) t) (bit_xor-lt 64 (uint64-lt xs h) ht),
        bit_xor_twice 64 (uint64 xs) t (uint64-lt xs h) ht,
      )
      (put_uint64-uint64 xs h)

pub take_eight : (a r : Octets) → Sized 8 a → take 8 (a ++ r) ≡ a
take_eight a r h = subst (λ n. take n (a ++ r) ≡ a) h.0 (take-append a r)

pub drop_eight : (a r : Octets) → Sized 8 a → drop 8 (a ++ r) ≡ r
drop_eight a r h = subst (λ n. drop n (a ++ r) ≡ r) h.0 (drop-append a r)

counter-lt : (n j i : ℕ) → counter n j i < 2 ^ 64
counter-lt n j i = omega arith

module _ (c : BlockCipher) (laws : IsCipher c) (key : Octets) where
  wrap_step-Sized :
      (t : ℕ) (a r : Octets)
      → Sized 8 a
      → Sized 8 r
      → Sized 8 (wrap_step c key t a r).0 × Sized 8 (wrap_step c key t a r).1
  unfolding wrap_step
  wrap_step-Sized t a r ha hr = (
    put_uint64-Sized _,
    Sized-drop 8 8 _ (laws.encrypt-Sized key (a ++ r) (Sized-append a r ha hr)),
  )

  unwrap_step-Sized :
      (t : ℕ) (a r : Octets)
      → Sized 8 r
      → Sized 8 (unwrap_step c key t a r).0 × Sized 8 (unwrap_step c key t a r).1
  unfolding unwrap_step
  unwrap_step-Sized t a r hr =
      let block =
        laws.decrypt-Sized key _ (Sized-append _ r (put_uint64-Sized (bit_xor (uint64 a) t)) hr) in
      (Sized-take 8 8 _ block, Sized-drop 8 8 _ block)

  unwrap_step-wrap_step :
      (t : ℕ) (a r : Octets)
      → t < 2 ^ 64
      → Sized 8 a
      → Sized 8 r
      → unwrap_step c key t (wrap_step c key t a r).0 (wrap_step c key t a r).1 ≡ (a, r)
  unfolding wrap_step unwrap_step
  unwrap_step-wrap_step t a r ht ha hr =
      let block : Sized 16 (a ++ r) = Sized-append a r ha hr in
      let buffer = c.encrypt key (a ++ r) in
      let whole : Sized 16 buffer = laws.encrypt-Sized key (a ++ r) block in
      rw (
        put_xor_twice t (take 8 buffer) ht (Sized-take 8 8 buffer whole),
        take-append-drop 8 buffer,
        laws.decrypt-encrypt key (a ++ r) block,
        take_eight a r ha,
        drop_eight a r ha,
      )

  wrap_step-unwrap_step :
      (t : ℕ) (a r : Octets)
      → t < 2 ^ 64
      → Sized 8 a
      → Sized 8 r
      → wrap_step c key t (unwrap_step c key t a r).0 (unwrap_step c key t a r).1 ≡ (a, r)
  unfolding wrap_step unwrap_step
  wrap_step-unwrap_step t a r ht ha hr =
      let x = put_uint64 (bit_xor (uint64 a) t) in
      let hx : Sized 8 x = put_uint64-Sized _ in
      let block : Sized 16 (x ++ r) = Sized-append x r hx hr in
      rw (
        take-append-drop 8 (c.decrypt key (x ++ r)),
        laws.encrypt-decrypt key (x ++ r) block,
        take_eight x r hx,
        drop_eight x r hx,
        put_xor_twice t a ht ha,
      )

  wrap_round-State :
      (n j i : ℕ) (a : Octets) (rs : List Octets)
      → Sized 8 a
      → Registers rs
      → State (wrap_round c key n j i a rs)
  unfolding wrap_round
  wrap_round-State n j i a [] ha hs = (ha, tt)
  wrap_round-State n j i a (r ∷ rs) ha hs =
      let step = wrap_step-Sized (counter n j i) a r ha hs.0 in
      let rest = wrap_round-State n j (suc i) _ rs step.0 hs.1 in (rest.0, (step.1, rest.1))

  unwrap_round-State :
      (n j i : ℕ) (a : Octets) (rs : List Octets)
      → Sized 8 a
      → Registers rs
      → State (unwrap_round c key n j i a rs)
  unfolding unwrap_round
  unwrap_round-State n j i a [] ha hs = (ha, tt)
  unwrap_round-State n j i a (r ∷ rs) ha hs =
      let rest = unwrap_round-State n j (suc i) a rs ha hs.1 in
      let step = unwrap_step-Sized (counter n j i) _ r hs.0 in (step.0, (step.1, rest.1))

  unwrap_round-wrap_round :
      (n j i : ℕ) (a : Octets) (rs : List Octets)
      → Sized 8 a
      → Registers rs
      → unwrap_round c key n j i (wrap_round c key n j i a rs).0 (wrap_round c key n j i a rs).1
        ≡ (a, rs)
  unfolding wrap_round unwrap_round
  unwrap_round-wrap_round n j i a [] ha hs = refl
  unwrap_round-wrap_round n j i a (r ∷ rs) ha hs =
      let step = wrap_step-Sized (counter n j i) a r ha hs.0 in
      rw (
        unwrap_round-wrap_round n j (suc i) (wrap_step c key (counter n j i) a r).0 rs step.0 hs.1,
        unwrap_step-wrap_step (counter n j i) a r (counter-lt n j i) ha hs.0,
      )

  wrap_round-unwrap_round :
      (n j i : ℕ) (a : Octets) (rs : List Octets)
      → Sized 8 a
      → Registers rs
      → wrap_round c key n j i (unwrap_round c key n j i a rs).0 (unwrap_round c key n j i a rs).1
        ≡ (a, rs)
  unfolding wrap_round unwrap_round
  wrap_round-unwrap_round n j i a [] ha hs = refl
  wrap_round-unwrap_round n j i a (r ∷ rs) ha hs =
      let rest = unwrap_round-State n j (suc i) a rs ha hs.1 in
      rw (
        wrap_step-unwrap_step (counter n j i) (unwrap_round c key n j (suc i) a rs).0 r
            (counter-lt n j i) rest.0 hs.0,
        wrap_round-unwrap_round n j (suc i) a rs ha hs.1,
      )

  pub wrap_rounds-State :
      (n k : ℕ) (a : Octets) (rs : List Octets)
      → Sized 8 a
      → Registers rs
      → State (wrap_rounds c key n k a rs)
  unfolding wrap_rounds
  wrap_rounds-State n zero a rs ha hs = (ha, hs)
  wrap_rounds-State n (suc k) a rs ha hs =
      let before = wrap_rounds-State n k a rs ha hs in wrap_round-State n k 1 _ _ before.0 before.1

  pub unwrap_rounds-State :
      (n k : ℕ) (a : Octets) (rs : List Octets)
      → Sized 8 a
      → Registers rs
      → State (unwrap_rounds c key n k a rs)
  unfolding unwrap_rounds
  unwrap_rounds-State n zero a rs ha hs = (ha, hs)
  unwrap_rounds-State n (suc k) a rs ha hs =
      let after = unwrap_round-State n k 1 a rs ha hs in unwrap_rounds-State n k _ _ after.0 after.1

  -- All the rounds, forwards and then backwards.
  pub unwrap_rounds-wrap_rounds :
      (n k : ℕ) (a : Octets) (rs : List Octets)
      → Sized 8 a
      → Registers rs
      → unwrap_rounds c key n k (wrap_rounds c key n k a rs).0 (wrap_rounds c key n k a rs).1
        ≡ (a, rs)
  unfolding wrap_rounds unwrap_rounds
  unwrap_rounds-wrap_rounds n zero a rs ha hs = refl
  unwrap_rounds-wrap_rounds n (suc k) a rs ha hs =
      let before = wrap_rounds-State n k a rs ha hs in
      rw (unwrap_round-wrap_round n k 1 _ _ before.0 before.1)
        (unwrap_rounds-wrap_rounds n k a rs ha hs)

  pub wrap_rounds-unwrap_rounds :
      (n k : ℕ) (a : Octets) (rs : List Octets)
      → Sized 8 a
      → Registers rs
      → wrap_rounds c key n k (unwrap_rounds c key n k a rs).0 (unwrap_rounds c key n k a rs).1
        ≡ (a, rs)
  unfolding wrap_rounds unwrap_rounds
  wrap_rounds-unwrap_rounds n zero a rs ha hs = refl
  wrap_rounds-unwrap_rounds n (suc k) a rs ha hs =
      let after = unwrap_round-State n k 1 a rs ha hs in
      rw (wrap_rounds-unwrap_rounds n k _ _ after.0 after.1)
        (wrap_round-unwrap_round n k 1 a rs ha hs)

  length-wrap_round :
      (n j i : ℕ) (a : Octets) (rs : List Octets)
      → length (wrap_round c key n j i a rs).1 ≡ length rs
  unfolding wrap_round
  length-wrap_round n j i a [] = refl
  length-wrap_round n j i a (r ∷ rs) = ap suc (length-wrap_round n j (suc i) _ rs)

  length-unwrap_round :
      (n j i : ℕ) (a : Octets) (rs : List Octets)
      → length (unwrap_round c key n j i a rs).1 ≡ length rs
  unfolding unwrap_round
  length-unwrap_round n j i a [] = refl
  length-unwrap_round n j i a (r ∷ rs) = ap suc (length-unwrap_round n j (suc i) a rs)

  pub length-wrap_rounds :
      (n k : ℕ) (a : Octets) (rs : List Octets) → length (wrap_rounds c key n k a rs).1 ≡ length rs
  unfolding wrap_rounds
  length-wrap_rounds n zero a rs = refl
  length-wrap_rounds n (suc k) a rs =
      length-wrap_round n k 1 _ (wrap_rounds c key n k a rs).1 ∙ length-wrap_rounds n k a rs

  pub length-unwrap_rounds :
      (n k : ℕ) (a : Octets) (rs : List Octets)
      → length (unwrap_rounds c key n k a rs).1 ≡ length rs
  unfolding unwrap_rounds
  length-unwrap_rounds n zero a rs = refl
  length-unwrap_rounds n (suc k) a rs =
      length-unwrap_rounds n k _ (unwrap_round c key n k 1 a rs).1 ∙ length-unwrap_round n k 1 a rs
