-- ===== src/Jwk/Remote/System.antt =====
-- Goroutines that call Get and Refresh of one source of jwk/remote/remote.go. A critical section is one
-- move, and the moves of the goroutines come in any sequence, with time between them.
pub mod Flight
pub mod Waiting
pub mod Pacing
use golang_jwt_ci_test.Prelude.{
  ℕ, suc, ◌+◌, ◌≤◌, ◌≡◌, Bool, true, false, Option, none, some, List, [], ◌∷◌, Octets,
}
use mathlib.Core.Logic.{ite}
use native.Mathlib.Decide.{ℕ_discrete}
use golang_jwt_ci_test.Errors.{Result, Error, ok, err}
use golang_jwt_ci_test.Jwk.KeySet.{KeySet}
use golang_jwt_ci_test.Jwk.Remote.{
  Source, State, Response, request, fresh, decide, Decision, answer, join, lead, settled,
}

-- Where a goroutine is: in no call, before load (with `forced`), at the channel of a fetch, in the
-- request of its fetch, before the second critical section, before the close of the channel, and after
-- the call.
pub data Pc : Type 0 where
  idle : Pc
  loading : Bool → Pc
  waiting requesting : ℕ → Pc
  writing closing : ℕ → Result KeySet → Pc
  returned : Result KeySet → Pc

-- The source, the clock, the fetches that are closed with what they hold, the number of the next
-- fetch, and the times at which requests started, the last one first.
pub record Shared : Type 0 where
  pub state : State
  pub now : ℕ
  pub fetches : ℕ → Option (Result KeySet)
  pub next : ℕ
  pub started : List ℕ

abbrev pub update {ℓ} : {A : Type ℓ} → (ℕ → A) → ℕ → A → ℕ → A
update f i a j = ite (ℕ_discrete i j) a (f j)

-- `source.inflight = current`
abbrev pub led : Shared → Shared
led m = record m {
  state = record m.state { inflight = some m.next };
  next = suc m.next;
  started = m.now ∷ m.started;
}

abbrev pub settle_state : Shared → Result KeySet → Shared
settle_state m r = record m { state = settled m.state m.now r }

abbrev pub close_fetch : Shared → ℕ → Result KeySet → Shared
close_fetch m f r = record m { fetches = update m.fetches f (some r) }

-- The part of Get before load.
abbrev pub entered : Option KeySet → Pc
entered (some keys) = returned (ok keys)
entered none = loading false

module _ (source : Source) (read_json : Octets → Result KeySet) where
  pub data Move (m : Shared) : Pc → Shared → Pc → Type 0 where
    get : Move m idle m (entered (fresh source m.state m.now))
    refresh : Move m idle m (loading true)
    give :
        {forced : Bool} {r : Result KeySet}
        → decide source m.state m.now forced ≡ answer r
        → Move m (loading forced) m (returned r)
    wait :
        {forced : Bool} {f : ℕ}
        → decide source m.state m.now forced ≡ join f
        → Move m (loading forced) m (waiting f)
    start :
        {forced : Bool}
        → decide source m.state m.now forced ≡ lead
        → Move m (loading forced) (led m) (requesting m.next)
    respond :
        {f : ℕ} (response : Response)
        → Move m (requesting f) m (writing f (request source read_json response))
    settle : {f : ℕ} {r : Result KeySet} → Move m (writing f r) (settle_state m r) (closing f r)
    close : {f : ℕ} {r : Result KeySet} → Move m (closing f r) (close_fetch m f r) (returned r)
    wake : {f : ℕ} {r : Result KeySet} → m.fetches f ≡ some r → Move m (waiting f) m (returned r)
    cancel : {f : ℕ} (e : Error) → Move m (waiting f) m (returned (err e))
    leave : {r : Result KeySet} → Move m (returned r) m idle

  pub record World : Type 0 where
    pub shared : Shared
    pub pc : ℕ → Pc

  pub data Step (w : World) : World → Type 0 where
    pick :
        (i : ℕ) {m : Shared} {p : Pc}
        → Move w.shared (w.pc i) m p
        → Step w (record { shared = m; pc = update w.pc i p })
    pass : (d : ℕ) → Step w (record w { shared = record w.shared { now = w.shared.now + d } })

  -- A source that NewSource made, at a time that is not the zero Time.
  abbrev pub initial : ℕ → World
  initial now = record {
    shared = record {
      state = record { cached = none; fetched = 0; failure = none; inflight = none };
      now = now;
      fetches = λ f. none;
      next = 0;
      started = [];
    };
    pc = λ i. idle;
  }

  pub data Reach (now : ℕ) : World → Type 0 where
    begin : Reach now (initial now)
    later : {w v : World} → Reach now w → Step w v → Reach now v
