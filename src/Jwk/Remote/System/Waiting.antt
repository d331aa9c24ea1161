-- ===== src/Jwk/Remote/System/Waiting.antt =====
-- A goroutine that waits for a fetch of jwk/remote/remote.go is not left waiting.
use golang_jwt_ci_test.Prelude.{
  ℕ, suc, ◌≤◌, ◌≡◌, ◌≢◌, ◌⊎◌, inl, inr, sym, subst, ◌∙◌, some, arith, Octets,
}
use golang_jwt_ci_test.Errors.{Result}
use golang_jwt_ci_test.Jwk.KeySet.{KeySet}
use golang_jwt_ci_test.Jwk.Remote.{Source, Response, request}
use golang_jwt_ci_test.Jwk.Remote.System.{
  Pc, waiting, requesting, writing, closing, Shared, update, Move, respond, settle, close, World,
  Reach,
}
use golang_jwt_ci_test.Jwk.Remote.System.Flight.{leads, closes, waits, Reach-Inv}

module _ (source : Source) (read_json : Octets → Result KeySet) where
  -- A move to `p'` with this answer of the client: a request that the move ends has it as its outcome.
  abbrev pub Replies : Response → Pc → Pc → Type 0
  Replies response p p' =
      (g : ℕ) → p ≡ requesting g → p' ≡ writing g (request source read_json response)

  -- So many moves of goroutines other than this one, one after the other, with one answer of the client
  -- to all requests that they end.
  pub data Others (response : Response) (i : ℕ)
      : ℕ → World source read_json → World source read_json → Type 0 where
    stay : {w : World source read_json} → Others response i 0 w w
    move :
        {n : ℕ} {w v : World source read_json} {m : Shared} {p : Pc} (j : ℕ)
        → i ≢ j
        → Move source read_json w.shared (w.pc j) m p
        → Replies response (w.pc j) p
        → Others response i n (record { shared = m; pc = update w.pc j p }) v
        → Others response i (suc n) w v

  -- After at most `n` moves of the others with this answer, the fetch is closed, and goroutine `i`
  -- still stands at its channel.
  abbrev pub Answered : Response → ℕ → ℕ → ℕ → World source read_json → Type 0
  Answered response n i f w =
      (k : ℕ) × (k ≤ n)
      × (v : World source read_json) × Others response i k w v
      × (v.pc i ≡ waiting f)
      × ((r : Result KeySet) × (v.shared.fetches f ≡ some r))

  step_first :
      (response : Response) (n i f j : ℕ) (w : World source read_json) {p p' : Pc} {m : Shared}
      → i ≢ j
      → w.pc j ≡ p
      → Move source read_json w.shared p m p'
      → Replies response p p'
      → Answered response n i f (record { shared = m; pc = update w.pc j p' })
      → Answered response (suc n) i f w
  step_first response n i f j w {p} {p'} {m} other e mv reply
        (k, small, v, others, stands, closed) =
      (
        suc k,
        omega (arith, small),
        v,
        move j other (subst (λ x. Move source read_json w.shared x m p') (sym e) mv)
            (λ g q. reply g (sym e ∙ q)) others,
        stands,
        closed,
      )

  closed_soon :
      (response : Response) (i f j : ℕ) (r : Result KeySet) (w : World source read_json)
      → w.pc i ≡ waiting f
      → w.pc j ≡ closing f r
      → Answered response 1 i f w
  closed_soon response i f j r w at e =
      let other : i ≢ j = ground (arith, at, e) in
      step_first response 0 i f j w other e close (λ g q. absurd (cc))
        (0, omega arith, _, stay, ground (arith, at, other), (r, ground arith))

  settled_soon :
      (response : Response) (i f j : ℕ) (r : Result KeySet) (w : World source read_json)
      → w.pc i ≡ waiting f
      → w.pc j ≡ writing f r
      → Answered response 2 i f w
  settled_soon response i f j r w at e =
      let other : i ≢ j = ground (arith, at, e) in
      step_first response 1 i f j w other e settle (λ g q. absurd (cc))
        (closed_soon response i f j r _ (ground (arith, at, other)) (ground arith))

  requested_soon :
      (response : Response) (i f j : ℕ) (w : World source read_json)
      → w.pc i ≡ waiting f
      → w.pc j ≡ requesting f
      → Answered response 3 i f w
  requested_soon response i f j w at e =
      let other : i ≢ j = ground (arith, at, e) in
      step_first response 2 i f j w other e (respond response) (λ g q. cc)
        (settled_soon response i f j (request source read_json response) _
          (ground (arith, at, other)) (ground arith))

  longer :
      (response : Response) (n k i f : ℕ) (w : World source read_json)
      → k ≤ n
      → Answered response k i f w
      → Answered response n i f w
  longer response n k i f w small (l, fits, v, others, stands, closed) =
      (l, omega (arith, small, fits), v, others, stands, closed)

  closing_of : (p : Pc) (f : ℕ) → closes p ≡ some f → (r : Result KeySet) × (p ≡ closing f r)
  closing_of (closing g r) f h = (r, cc)
  closing_of p f h = absurd (cc)

  leading_of :
      (p : Pc) (f : ℕ)
      → leads p ≡ some f
      → (p ≡ requesting f) ⊎ ((r : Result KeySet) × (p ≡ writing f r))
  leading_of (requesting g) f h = inl (cc)
  leading_of (writing g r) f h = inr (r, cc)
  leading_of p f h = absurd (cc)

  waiting_of : (p : Pc) (f : ℕ) → waits p ≡ some f → p ≡ waiting f
  waiting_of (waiting g) f h = cc
  waiting_of p f h = absurd (cc)

  -- A goroutine that waits at a fetch is never left there: from each state that can come up, and for
  -- each answer of the client, a key set or an error, three moves of other goroutines or less, in
  -- which the client gives that answer, close that fetch with a result.
  pub Reach-Answered :
      {now : ℕ} {w : World source read_json} (i f : ℕ) (response : Response)
      → Reach source read_json now w
      → waits (w.pc i) ≡ some f
      → Answered response 3 i f w
  Reach-Answered {w} i f response r q =
      let at = waiting_of (w.pc i) f q in
      elim ((Reach-Inv source read_json r).attended i f q) [
        | inl (j, l) ↦ elim (leading_of (w.pc j) f l) [
          | inl e ↦ requested_soon response i f j w at e
          | inr (s, e) ↦
              longer response 3 2 i f w (omega arith) (settled_soon response i f j s w at e)
        ]
        | inr (inl (j, c)) ↦
            let (s, e) = closing_of (w.pc j) f c in
            longer response 3 1 i f w (omega arith) (closed_soon response i f j s w at e)
        | inr (inr held) ↦ (0, omega arith, w, stay, at, held)
      ]
