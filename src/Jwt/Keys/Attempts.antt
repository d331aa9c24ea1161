-- ===== src/Jwt/Keys/Attempts.antt =====
-- When withKeys of token.go succeeds, and with which attempt.
use golang_jwt_ci_test.Prelude.{
  ◌≡◌, ◌↔◌, ◌⊎◌, inl, inr, refl, true, Option, none, some, arith, Bool-cases,
}
use golang_jwt_ci_test.Errors.{Result, Error, ok, err, lacks_key}
use golang_jwt_ci_test.Jwk.KeySet.{KeySet}
use golang_jwt_ci_test.Jwt.Keys.{Source, try_again, after_attempt, after_get, with_keys}

module _ {K S : Type 0} (attempt : Option KeySet → S → S × Result (Unit {0}))
    (source : Source K) where
  -- The set that Get gives is enough.
  abbrev pub FirstAttempt : K → S → K → S → Type 0
  FirstAttempt k s k' s' =
      (set : Option KeySet) × (source.get k ≡ (k', ok set)) × (attempt set s ≡ (s', ok tt))

  -- The first attempt fails for want of a key, and the set that Refresh gives is enough.
  abbrev pub SecondAttempt : K → S → K → S → Type 0
  SecondAttempt k s k' s' =
      (set : Option KeySet) × (k1 : K) × (s1 : S) × (e : Error) × (refresh : K
        → K × Result (Option KeySet))
      × (refreshed : Option KeySet) × (source.get k ≡ (k1, ok set))
      × (attempt set s ≡ (s1, err e))
      × (lacks_key e ≡ true)
      × (source.refresh ≡ some refresh)
      × (refresh k1 ≡ (k', ok refreshed))
      × (attempt refreshed s1 ≡ (s', ok tt))

  tried_again :
      (e : Error) (s s' : S) (k' : K) (r : K × Result (Option KeySet))
      → try_again attempt e s r ≡ (k', s', ok tt)
      → (refreshed : Option KeySet) × (r ≡ (k', ok refreshed)) × (attempt refreshed s ≡ (s', ok tt))
  unfolding try_again
  tried_again e s s' k' (k, err x) h = ground arith
  tried_again e s s' k' (k, ok set) h = (set, ground arith, ground arith)

  attempted :
      (set : Option KeySet) (refresh : Option (K → K × Result (Option KeySet))) (k k' : K)
      (s s' : S) (r : S × Result (Unit {0}))
      → attempt set s ≡ r
      → source.refresh ≡ refresh
      → after_attempt attempt refresh k r ≡ (k', s', ok tt)
      → (k0 : K) → source.get k0 ≡ (k, ok set)
      → FirstAttempt k0 s k' s' ⊎ SecondAttempt k0 s k' s'
  unfolding after_attempt
  attempted set refresh k k' s s' (s1, ok u) a f h k0 g =
      inl (set, ground (arith, g, h), ground (arith, a, h))
  attempted set none k k' s s' (s1, err e) a f h k0 g = ground arith
  attempted set (some refresh) k k' s s' (s1, err e) a f h k0 g = elim (Bool-cases (lacks_key e)) [
    | inr l ↦ ground arith
    | inl l ↦
        let (refreshed, r, b) = tried_again e s1 s' k' (refresh k) (ground (arith, l, h)) in
        inr (set, k, s1, e, refresh, refreshed, g, a, l, f, r, b)
  ]

  got :
      (k k' : K) (s s' : S) (r : K × Result (Option KeySet))
      → source.get k ≡ r
      → after_get attempt source s r ≡ (k', s', ok tt)
      → FirstAttempt k s k' s' ⊎ SecondAttempt k s k' s'
  unfolding after_get
  got k k' s s' (k1, err e) g h = ground arith
  got k k' s s' (k1, ok set) g h =
      attempted set source.refresh k1 k' s s' (attempt set s) refl refl h k g

  -- withKeys succeeds with a source exactly when the attempt succeeds with the set that Get gives,
  -- or fails with it for want of a key and then succeeds, from the state that it left, with the set
  -- that the one call of Refresh gives.
  pub with_keys_iff :
      (k k' : K) (s s' : S)
      → (with_keys attempt (some source) k s ≡ (k', s', ok tt))
        ↔ (FirstAttempt k s k' s' ⊎ SecondAttempt k s k' s')
  unfolding with_keys after_get after_attempt try_again
  with_keys_iff k k' s s' = (
    λ h. got k k' s s' (source.get k) refl h,
    λ h. elim h [
      | inl (set, g, a) ↦ ground (arith, g, a)
      | inr (set, k1, s1, e, refresh, refreshed, g, a, l, r, f, b) ↦
          ground (arith, g, a, l, r, f, b)
    ],
  )
