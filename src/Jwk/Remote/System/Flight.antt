-- ===== src/Jwk/Remote/System/Flight.antt =====
-- One request at a time, and the fetch that a goroutine waits for, in jwk/remote/remote.go.
use golang_jwt_ci_test.Prelude.{ℕ, ◌≡◌, ◌⊎◌, inl, inr, refl, Option, none, some, arith, Octets}
use native.Mathlib.Decide.{ℕ_discrete}
use golang_jwt_ci_test.Errors.{Result}
use golang_jwt_ci_test.Jwk.KeySet.{KeySet}
use golang_jwt_ci_test.Jwk.Remote.{Source, settled}
use golang_jwt_ci_test.Jwk.Remote.Load.{decide-lead_after, decide-join}
use golang_jwt_ci_test.Jwk.Remote.System.{
  Pc, waiting, requesting, writing, closing, Shared, update, Move, get, wait, start, settle, close,
  World, Step, pick, pass, initial, Reach, begin, later,
}

-- The fetch that a goroutine makes, up to the second critical section.
abbrev pub leads : Pc → Option ℕ
leads (requesting f) = some f
leads (writing f r) = some f
leads _ = none

-- The fetch that a goroutine is about to close.
abbrev pub closes : Pc → Option ℕ
closes (closing f r) = some f
closes _ = none

abbrev pub waits : Pc → Option ℕ
waits (waiting f) = some f
waits _ = none

-- Someone will close the fetch, or it is closed.
abbrev pub Attended : Shared → (ℕ → Pc) → ℕ → Type 0
Attended m pc f =
    ((j : ℕ) × (leads (pc j) ≡ some f))
    ⊎ (((j : ℕ) × (closes (pc j) ≡ some f)) ⊎ ((r : Result KeySet) × (m.fetches f ≡ some r)))

pub record Inv (m : Shared) (pc : ℕ → Pc) : Type 0 where
  pub known : (i f : ℕ) → leads (pc i) ≡ some f → m.state.inflight ≡ some f
  pub unique : (i j f : ℕ) → leads (pc i) ≡ some f → leads (pc j) ≡ some f → i ≡ j
  pub has_leader : (f : ℕ) → m.state.inflight ≡ some f → (i : ℕ) × (leads (pc i) ≡ some f)
  pub attended : (i f : ℕ) → waits (pc i) ≡ some f → Attended m pc f

module _ (source : Source) (read_json : Octets → Result KeySet) where
  Inv-initial :
      (now : ℕ) → Inv (initial source read_json now).shared (initial source read_json now).pc
  Inv-initial now = record {
    known = λ i f q. cc;
    unique = λ i j f q r. cc;
    has_leader = λ f q. absurd (cc);
    attended = λ i f q. absurd (cc);
  }

  module _ {m : Shared} {pc : ℕ → Pc} (inv : Inv m pc) (i : ℕ) where
    open inv use {known, unique, has_leader, attended}

    Move-known :
        {p p' : Pc} {m' : Shared}
        → Move source read_json m p m' p'
        → pc i ≡ p
        → (j f : ℕ) → leads (update pc i p' j) ≡ some f
        → m'.state.inflight ≡ some f
    unfolding settled
    Move-known get e j f q = ground (arith, known j f)
    Move-known (start d) e j f q =
        ground (arith, known j f, decide-lead_after source m.state m.now _ d)
    Move-known (settle {f = g}) e j f q = ground (arith, known j f, known i g, unique i j f, e)
    Move-known mv e j f q = ground (arith, known j f, known i f, e)

    Move-unique :
        {p p' : Pc} {m' : Shared}
        → Move source read_json m p m' p'
        → pc i ≡ p
        → (a b f : ℕ) → leads (update pc i p' a) ≡ some f
        → leads (update pc i p' b) ≡ some f
        → a ≡ b
    Move-unique (start d) e a b f x y =
        ground
          (arith, known a f, known b f, unique a b f, decide-lead_after source m.state m.now _ d)
    Move-unique mv e a b f x y = ground (arith, unique a b f, unique i b f, unique a i f, e)

    Move-has_leader :
        {p p' : Pc} {m' : Shared}
        → Move source read_json m p m' p'
        → pc i ≡ p
        → (f : ℕ) → m'.state.inflight ≡ some f
        → (j : ℕ) × (leads (update pc i p' j) ≡ some f)
    unfolding settled
    Move-has_leader (start d) e f q = (i, ground (arith, q))
    Move-has_leader settle e f q = absurd (cc)
    Move-has_leader mv e f q = let (j, l) = has_leader f q in (j, ground (arith, l, e))

    Move-Attended :
        {p p' : Pc} {m' : Shared}
        → Move source read_json m p m' p'
        → pc i ≡ p
        → (f : ℕ) → Attended m pc f
        → Attended m' (update pc i p') f
    unfolding settled
    Move-Attended settle e f (inl (j, l)) = elim (ℕ_discrete i j) [
      | yes same ↦ inr (inl (i, ground (arith, same, l, e)))
      | no other ↦ inl (j, ground (arith, other, l))
    ]
    Move-Attended (close {f = g} {r}) e f (inr (inl (j, c))) = elim (ℕ_discrete i j) [
      | yes same ↦ inr (inr (r, ground (arith, same, c, e)))
      | no other ↦ inr (inl (j, ground (arith, other, c)))
    ]
    Move-Attended (close {f = g} {r}) e f (inr (inr (s, h))) = elim (ℕ_discrete g f) [
      | yes same ↦ inr (inr (r, ground (arith, same)))
      | no other ↦ inr (inr (s, ground (arith, other, h)))
    ]
    Move-Attended mv e f (inl (j, l)) = inl (j, ground (arith, l, e))
    Move-Attended mv e f (inr (inl (j, c))) = inr (inl (j, ground (arith, c, e)))
    Move-Attended mv e f (inr (inr (r, h))) = inr (inr (r, h))

    Move-waits :
        {p p' : Pc} {m' : Shared}
        → Move source read_json m p m' p'
        → pc i ≡ p
        → (j f : ℕ) → waits (update pc i p' j) ≡ some f
        → Attended m' (update pc i p') f
    Move-waits (wait {f = g} d) e j f q = elim (ℕ_discrete i j) [
      | yes same ↦
          let (k, l) =
            has_leader f (ground (arith, same, q, decide-join source m.state m.now g _ d)) in
          inl (k, ground (arith, l, e))
      | no other ↦ Move-Attended (wait d) e f (attended j f (ground (arith, other, q)))
    ]
    Move-waits mv e j f q = Move-Attended mv e f (attended j f (ground (arith, q)))

    Move-Inv :
        {p p' : Pc} {m' : Shared}
        → Move source read_json m p m' p'
        → pc i ≡ p
        → Inv m' (update pc i p')
    Move-Inv mv e = record {
      known = Move-known mv e;
      unique = Move-unique mv e;
      has_leader = Move-has_leader mv e;
      attended = Move-waits mv e;
    }

  Step-Inv :
      {w v : World source read_json}
      → Step source read_json w v
      → Inv w.shared w.pc
      → Inv v.shared v.pc
  Step-Inv (pick i mv) inv = Move-Inv inv i mv refl
  Step-Inv (pass d) inv = record {
    known = inv.known;
    unique = inv.unique;
    has_leader = inv.has_leader;
    attended = inv.attended;
  }

  pub Reach-Inv :
      {now : ℕ} {w : World source read_json} → Reach source read_json now w → Inv w.shared w.pc
  Reach-Inv {now} begin = Inv-initial now
  Reach-Inv (later r st) = Step-Inv st (Reach-Inv r)

  -- In whatever sequence the goroutines move, at most one of them makes a request at a time, and it is
  -- for the fetch that the source holds as the one under way.
  pub Reach-unique :
      {now : ℕ} {w : World source read_json} (i j f g : ℕ)
      → Reach source read_json now w
      → leads (w.pc i) ≡ some f
      → leads (w.pc j) ≡ some g
      → (i ≡ j) × (f ≡ g) × (w.shared.state.inflight ≡ some f)
  Reach-unique i j f g r a b =
      let inv = Reach-Inv r in
      let x = inv.known i f a in
      let y = inv.known j g b in
      let same : f ≡ g = ground (arith, x, y) in
      (ground (arith, inv.unique i j f a, same, b), same, x)
