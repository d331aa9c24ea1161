-- ===== src/Jwk/Remote/Tests.antt =====
-- A source over a toy JSON decoder, and two goroutines that call Get and Refresh.
use golang_jwt_ci_test.Prelude.{
  ℕ, ◌+◌, ◌*◌, ◌≤◌, ◌≡◌, ◌⊎◌, refl, ap, true, false, none, some, [], ◌∷◌, arith, Octets, text,
  length, if◌then◌else◌, ◌==◌, nat_same, list_same,
}
use native.Mathlib.Decide.{ℕ_discrete}
use golang_jwt_ci_test.Errors.{Result, ok, err, foreign}
use golang_jwt_ci_test.Streams.{read_limited}
use golang_jwt_ci_test.Jwk.KeySet.{KeySet}
use golang_jwt_ci_test.Jwk.Remote.{
  Source, State, Response, request, read_size, younger, fresh, decide, lead,
}
use golang_jwt_ci_test.Jwk.Remote.Requests.{request_iff}
use golang_jwt_ci_test.Jwk.Remote.Load.{decide-lead_iff}
use golang_jwt_ci_test.Jwk.Remote.System.{
  Pc, waiting, World, pick, Reach, begin, later, refresh, start, wait,
}
use golang_jwt_ci_test.Jwk.Remote.System.Flight.{leads, waits, Reach-unique}
use golang_jwt_ci_test.Jwk.Remote.System.Waiting.{Answered, Reach-Answered}
use golang_jwt_ci_test.Jwk.Remote.System.Pacing.{Reach-requests}

abbrev source : Source
source = record { url = text "https://a"; interval = 300; minimum = 30; limit = 4; timeout = 30 }

abbrev no_keys : KeySet
no_keys = record { keys = [] }

abbrev read_json : Octets → Result KeySet
read_json body = if body == text "{}" then ok no_keys else err (foreign 0 ∷ [])

abbrev response : Response
response = ok (200, (text "{}", none))

response_read : request source read_json response ≡ ok no_keys
unfolding request read_size read_limited
response_read = refl

request_iff_example :
    (body : Octets) × (response ≡ ok (200, (body, none)))
    × (length body ≤ 4)
    × (read_json body ≡ ok no_keys)
request_iff_example = (request_iff source read_json response no_keys (omega arith)).0 response_read

-- No request was made yet.
abbrev new_state : State
new_state = record { cached = none; fetched = 0; failure = none; inflight = none }

first_leads : decide source new_state 7 false ≡ lead
unfolding decide fresh younger
first_leads = refl

decide-lead_iff_example :
    ((false ≡ true) ⊎ ((new_state.cached ≡ none) ⊎ (0 + 300 ≤ 7)))
    × ((new_state.fetched ≡ 0) ⊎ (0 + 30 ≤ 7))
    × (new_state.inflight ≡ none)
decide-lead_iff_example =
    (decide-lead_iff source new_state 7 false (omega arith) (omega arith)).0 first_leads

abbrev Run : World source read_json → Type 0
Run w = Reach source read_json 7 w

-- Goroutine 0 calls Refresh and starts a request, and goroutine 1 calls Refresh and waits for it.
abbrev Started : Type 0
Started =
    (w : World source read_json) × Run w
    × (w.pc 0 ≡ Pc.requesting 0)
    × (w.pc 1 ≡ waiting 0)
    × (length w.shared.started ≡ 1)

started : Started
unfolding decide fresh younger ℕ_discrete
started =
    let a = later begin (pick 0 refresh) in
    let b = later a (pick 0 (start refl)) in
    let c = later b (pick 1 refresh) in
    let d = later c (pick 1 (wait {f = 0} refl)) in (_, d, refl, refl, refl)

Reach-unique_example :
    (◌≡◌ {A = ℕ} 0 0) × (◌≡◌ {A = ℕ} 0 0) × (started.0.shared.state.inflight ≡ some 0)
Reach-unique_example =
    Reach-unique source read_json 0 0 0 0 started.1 (ap leads started.2) (ap leads started.2)

Reach-Answered_example : Answered source read_json response 3 1 0 started.0
Reach-Answered_example = Reach-Answered source read_json 1 0 response started.1 (ap waits started.3)

Reach-requests_example : 7 + 0 * 30 ≤ started.0.shared.now
Reach-requests_example = Reach-requests source read_json 7 (omega arith) 0 started.1 started.4
