-- ===== src/Jwk/Remote/System/Pacing.antt =====
-- How often a source of jwk/remote/remote.go makes a request.
use golang_jwt_ci_test.Prelude.{
  ℕ, suc, ◌+◌, ◌*◌, ◌≤◌, ◌≡◌, ◌≢◌, subst, none, List, [], ◌∷◌, arith, Octets, length,
}
use golang_jwt_ci_test.Errors.{Result}
use golang_jwt_ci_test.Jwk.KeySet.{KeySet}
use golang_jwt_ci_test.Jwk.Remote.{Source, settled}
use golang_jwt_ci_test.Jwk.Remote.Load.{decide-lead_after}
use golang_jwt_ci_test.Jwk.Remote.System.{
  Pc, Shared, Move, start, settle, World, pick, pass, Reach, begin, later,
}

abbrev last : List ℕ → ℕ
last [] = 0
last (t ∷ rest) = t

-- The starts of requests, the last one first: each is an interval after the one before it, and the
-- first is not before the beginning.
abbrev pub Paced : ℕ → ℕ → List ℕ → Type 0
Paced beginning interval [] = Unit
Paced beginning interval (t ∷ []) = beginning ≤ t
Paced beginning interval (t ∷ u ∷ rest) = (u + interval ≤ t) × Paced beginning interval (u ∷ rest)

-- The last start is at least so many intervals after the beginning.
Paced-last :
    (beginning interval t : ℕ) (rest : List ℕ)
    → Paced beginning interval (t ∷ rest)
    → beginning + length rest * interval ≤ t
Paced-last beginning interval t [] h = omega (arith, h)
Paced-last beginning interval t (u ∷ rest) (h, later_) =
    grind (arith, h, Paced-last beginning interval u rest later_)

record Pace (beginning interval : ℕ) (m : Shared) : Type 0 where
  begun : beginning ≤ m.now
  settled_by : m.state.fetched ≤ m.now
  paced : Paced beginning interval m.started
  recent : last m.started ≤ m.now
  after : m.state.inflight ≡ none → last m.started ≤ m.state.fetched

Paced-led :
    (beginning interval now fetched : ℕ) (started : List ℕ)
    → 1 ≤ beginning
    → beginning ≤ now
    → Paced beginning interval started
    → last started ≤ fetched
    → (fetched ≢ 0 → fetched + interval ≤ now)
    → Paced beginning interval (now ∷ started)
Paced-led beginning interval now fetched [] one begun p l held = begun
Paced-led beginning interval now fetched (t ∷ rest) one begun p l held =
    let later_ = Paced-last beginning interval t rest p in
    (omega (arith, l, held (omega (arith, later_, l, one))), p)

module _ (source : Source) (read_json : Octets → Result KeySet) (beginning : ℕ)
    (one : 1 ≤ beginning) where
  Move-Pace :
      {m m' : Shared} {p p' : Pc}
      → Move source read_json m p m' p'
      → Pace beginning source.minimum m
      → Pace beginning source.minimum m'
  unfolding settled
  Move-Pace {m} (start {forced} d) pace =
      let (alone, over) = decide-lead_after source m.state m.now forced d in
      record {
        begun = pace.begun;
        settled_by = pace.settled_by;
        paced =
            Paced-led beginning source.minimum m.now m.state.fetched m.started one pace.begun
              pace.paced (pace.after alone) over;
        recent = omega arith;
        after = λ q. absurd (cc);
      }
  Move-Pace settle pace = record {
    begun = pace.begun;
    settled_by = omega arith;
    paced = pace.paced;
    recent = pace.recent;
    after = λ q. pace.recent;
  }
  Move-Pace mv pace = record {
    begun = ground (arith, pace.begun);
    settled_by = ground (arith, pace.settled_by);
    paced = pace.paced;
    recent = ground (arith, pace.recent);
    after = pace.after;
  }

  Reach-Pace :
      {w : World source read_json}
      → Reach source read_json beginning w
      → Pace beginning source.minimum w.shared
  Reach-Pace begin = record {
    begun = omega arith;
    settled_by = omega arith;
    paced = tt;
    recent = omega arith;
    after = λ q. omega arith;
  }
  Reach-Pace (later r (pick i mv)) = Move-Pace mv (Reach-Pace r)
  Reach-Pace (later r (pass d)) =
      let pace = Reach-Pace r in
      record {
        begun = omega (arith, pace.begun);
        settled_by = omega (arith, pace.settled_by);
        paced = pace.paced;
        recent = omega (arith, pace.recent);
        after = pace.after;
      }

  -- In whatever sequence the goroutines move, two requests start at least the minimum interval apart.
  pub Reach-Paced :
      {w : World source read_json}
      → Reach source read_json beginning w
      → Paced beginning source.minimum w.shared.started
  Reach-Paced r = (Reach-Pace r).paced

  -- A source that made one request and `n` more had at least `n` minimum intervals of time for them, whatever
  -- the number of calls.
  pub Reach-requests :
      {w : World source read_json} (n : ℕ)
      → Reach source read_json beginning w
      → length w.shared.started ≡ suc n
      → beginning + n * source.minimum ≤ w.shared.now
  Reach-requests {w} n r q = counted w.shared.started (Reach-Pace r).paced (Reach-Pace r).recent q
    where
      counted :
          (started : List ℕ)
          → Paced beginning source.minimum started
          → last started ≤ w.shared.now
          → length started ≡ suc n
          → beginning + n * source.minimum ≤ w.shared.now
      counted [] p l q = absurd (omega (arith, q))
      counted (t ∷ rest) p l q =
          let h = Paced-last beginning source.minimum t rest p in
          let k : length rest ≡ n = omega (arith, q) in
          subst (λ x. beginning + x * source.minimum ≤ w.shared.now) k (omega (arith, h, l))
