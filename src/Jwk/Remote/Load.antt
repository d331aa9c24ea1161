-- ===== src/Jwk/Remote/Load.antt =====
-- When load of jwk/remote/remote.go starts a request, and what it answers when it starts none.
use golang_jwt_ci_test.Prelude.{
  ℕ, ◌+◌, ◌^◌, ◌≤◌, ◌<◌, ◌≡◌, ◌≢◌, ◌↔◌, ◌⊎◌, Bool, true, false, not, ◌&&◌, Option, none, some,
  arith, eqb, eqb_iff, if◌then◌else◌,
}
use golang_jwt_ci_test.Errors.{Result, ok}
use golang_jwt_ci_test.Jwk.KeySet.{KeySet}
use golang_jwt_ci_test.Jwk.Remote.{
  Source, State, younger, fresh, throttled, decide, Decision, answer, join, lead,
}

-- A time that is not younger than a duration is at least that old.
pub younger-false : (now fetched d : ℕ) → younger now fetched d ≡ false → fetched + d ≤ now
unfolding younger
younger-false now fetched d h = ground arith

-- For a duration, which is an int64, the test is exact, although Sub stops at the largest int64.
younger-false_iff :
    (now fetched d : ℕ) → d < 2 ^ 63 → (younger now fetched d ≡ false) ↔ (fetched + d ≤ now)
unfolding younger
younger-false_iff now fetched d small = ground (arith, small)

select : Option KeySet → Bool → Result KeySet → Option ℕ → Decision
select held blocked refusal inflight = elim held [
  | some keys ↦ answer (ok keys)
  | none ↦ if blocked then answer refusal else elim inflight [ some f ↦ join f | none ↦ lead ]
]

select-lead :
    (held : Option KeySet) (blocked : Bool) (refusal : Result KeySet) (inflight : Option ℕ)
    → (select held blocked refusal inflight ≡ lead)
      ↔ ((held ≡ none) × (blocked ≡ false) × (inflight ≡ none))
unfolding select
select-lead held blocked refusal inflight = ground arith

held_iff :
    (source : Source) (state : State) (now : ℕ) (forced : Bool)
    → source.interval < 2 ^ 63
    → ((if forced then none else fresh source state now) ≡ none)
      ↔ ((forced ≡ true) ⊎ ((state.cached ≡ none) ⊎ (state.fetched + source.interval ≤ now)))
unfolding fresh
held_iff source state now forced small =
    ground (arith, younger-false_iff now state.fetched source.interval small)

blocked_iff :
    (source : Source) (state : State) (now : ℕ)
    → source.minimum < 2 ^ 63
    → ((not (eqb state.fetched 0) && younger now state.fetched source.minimum) ≡ false)
      ↔ ((state.fetched ≡ 0) ⊎ (state.fetched + source.minimum ≤ now))
blocked_iff source state now small =
    ground
      (arith, eqb_iff state.fetched 0, younger-false_iff now state.fetched source.minimum small)

-- A request starts only where there was none yet or the last one is at least as old as the minimum
-- interval, which may be any number.
pub decide-lead_after :
    (source : Source) (state : State) (now : ℕ) (forced : Bool)
    → decide source state now forced ≡ lead
    → (state.inflight ≡ none) × (state.fetched ≢ 0 → state.fetched + source.minimum ≤ now)
unfolding decide select
decide-lead_after source state now forced d =
    let (held, free, alone) =
      (select-lead (if forced then none else fresh source state now)
          (not (eqb state.fetched 0) && younger now state.fetched source.minimum)
          (throttled state forced) state.inflight).0
        d in
    (
      alone,
      λ n.
          younger-false now state.fetched source.minimum
            (ground (arith, free, n, eqb_iff state.fetched 0)),
    )

-- Where the two intervals are durations, load starts a request exactly when the call is a Refresh, or
-- there are no keys, or the keys are at least as old as the refresh interval; and there was no request
-- yet, or the last one is at least as old as the minimum interval; and no request is under way.
pub decide-lead_iff :
    (source : Source) (state : State) (now : ℕ) (forced : Bool)
    → source.interval < 2 ^ 63
    → source.minimum < 2 ^ 63
    → (decide source state now forced ≡ lead) ↔ (
        ((forced ≡ true) ⊎ ((state.cached ≡ none) ⊎ (state.fetched + source.interval ≤ now)))
        × ((state.fetched ≡ 0) ⊎ (state.fetched + source.minimum ≤ now))
        × (state.inflight ≡ none))
unfolding decide select
decide-lead_iff source state now forced i_small m_small =
    let s =
      select-lead (if forced then none else fresh source state now)
        (not (eqb state.fetched 0) && younger now state.fetched source.minimum)
        (throttled state forced) state.inflight in
    let h = held_iff source state now forced i_small in
    let b = blocked_iff source state now m_small in
    (λ d. let (x, y, z) = s.0 d in (h.0 x, b.0 y, z), λ (x, y, z). s.1 (h.1 x, b.1 y, z))

select-answer :
    (keys : KeySet) (held cached : Option KeySet) (blocked : Bool) (refusal r : Result KeySet)
    (inflight : Option ℕ)
    → (held ≡ none) ⊎ (held ≡ some keys)
    → refusal ≡ ok keys
    → select held blocked refusal inflight ≡ answer r
    → r ≡ ok keys
unfolding select
select-answer keys held cached blocked refusal r inflight h q s = ground (arith, h, q, s)

-- A source that holds keys answers a Get with those keys and never with an error; else the call makes
-- a request or waits for one.
pub decide-keys :
    (source : Source) (state : State) (now : ℕ) (keys : KeySet) (r : Result KeySet)
    → state.cached ≡ some keys
    → decide source state now false ≡ answer r
    → r ≡ ok keys
unfolding decide select throttled fresh
decide-keys source state now keys r c d =
    select-answer keys (fresh source state now) state.cached
      (not (eqb state.fetched 0) && younger now state.fetched source.minimum)
      (throttled state false) r state.inflight (ground (arith, c)) (ground (arith, c)) d

-- A call waits only for the fetch that is under way.
pub decide-join :
    (source : Source) (state : State) (now f : ℕ) (forced : Bool)
    → decide source state now forced ≡ join f
    → state.inflight ≡ some f
unfolding decide select
decide-join source state now f forced d =
    joined (if forced then none else fresh source state now)
      (not (eqb state.fetched 0) && younger now state.fetched source.minimum)
      (throttled state forced) state.inflight d
  where
    joined :
        (held : Option KeySet) (blocked : Bool) (refusal : Result KeySet) (inflight : Option ℕ)
        → select held blocked refusal inflight ≡ join f
        → inflight ≡ some f
    joined held blocked refusal inflight h = ground arith
