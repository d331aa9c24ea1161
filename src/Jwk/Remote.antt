-- ===== src/Jwk/Remote.antt =====
-- The package jwk/remote (jwk/remote/remote.go): the source of a key set, its request and its cache.
-- A duration that an option gives is a natural number of nanoseconds, and the limit a natural number;
-- the client, the clock, and the context of a caller are not in the source but in its runs.
pub mod Requests
pub mod Load
pub mod System
mod Tests
use golang_jwt_ci_test.Prelude.{
  ℕ, ◌+◌, ◌-◌, ◌*◌, ◌^◌, ◌≡◌, Bool, true, false, not, ◌&&◌, Option, none, some, List, [], ◌∷◌,
  Octets, text, ◌==◌, nat_same, list_same, if◌then◌else◌, length, ltb, eqb,
}
use Prim.Native.Nat.{min}
use golang_jwt_ci_test.Errors.{
  Result, Error, ok, err, ◌>>=◌, ◌>>◌, guard, insecure_url, unexpected_status, oversized_key_set,
  malformed_key_set, too_soon,
}
use golang_jwt_ci_test.Streams.{Stream, read_limited}
use golang_jwt_ci_test.Jwk.KeySet.{KeySet}

-- The fields of Source that NewSource and its options set.
pub record Source : Type 0 where
  pub url : Octets
  pub interval : ℕ
  pub minimum : ℕ
  pub limit : ℕ
  pub timeout : ℕ

-- The fields of a url.URL that NewSource reads, and its String.
pub record Address : Type 0 where
  pub scheme : Octets
  pub host : Octets
  pub string : Octets

abbrev pub second : ℕ
second = 10 ^ 9

abbrev pub default_interval : ℕ
default_interval = 300 * second

abbrev pub default_minimum_interval : ℕ
default_minimum_interval = 30 * second

abbrev pub default_response_limit : ℕ
default_response_limit = 2 ^ 20

abbrev pub default_timeout : ℕ
default_timeout = 30 * second

unfoldable pub with_refresh_interval : ℕ → Source → Source
with_refresh_interval interval source = record source { interval = interval }

unfoldable pub with_minimum_interval : ℕ → Source → Source
with_minimum_interval interval source = record source { minimum = interval }

unfoldable pub with_response_limit : ℕ → Source → Source
with_response_limit limit source = record source { limit = limit }

unfoldable pub with_timeout : ℕ → Source → Source
with_timeout timeout source = record source { timeout = timeout }

-- The loop over the options.
unfoldable pub apply_options : List (Source → Source) → Source → Source
apply_options [] source = source
apply_options (option ∷ rest) source = apply_options rest (option source)

-- NewSource, with url.Parse.
unfoldable pub new_source :
    (Octets → Result Address) → Octets → List (Source → Source) → Result Source
new_source parse address options = do
  parsed ← parse address
  guard (parsed.scheme == text "https") (insecure_url ∷ [])
  guard (not (parsed.host == [])) (insecure_url ∷ [])
  ok (
      apply_options options (record {
        url = parsed.string;
        interval = default_interval;
        minimum = default_minimum_interval;
        limit = default_response_limit;
        timeout = default_timeout;
      }))

-- The status and the body of a response, or the error of making the request or of the client.
abbrev pub Response : Type 0
Response = Result (ℕ × Stream)

-- `source.limit+1` on an int64; a LimitReader of a negative number reads nothing.
unfoldable pub read_size : ℕ → ℕ
read_size limit = if ltb (limit + 1) (2 ^ 63) then limit + 1 else 0

abbrev pub read_set_or : Result KeySet → Result KeySet
read_set_or (ok set) = ok set
read_set_or (err e) = err (malformed_key_set ∷ e)

-- request, for the response of the client; json.Unmarshal into a KeySet is a parameter.
unfoldable pub request : Source → (Octets → Result KeySet) → Response → Result KeySet
request source read_json response = do
  (status, stream) ← response
  guard (eqb status 200) (unexpected_status ∷ [])
  body ← read_limited (read_size source.limit) stream
  guard (not (ltb source.limit (length body))) (oversized_key_set ∷ [])
  read_set_or (read_json body)

-- The fields of Source that change. A time is the nanoseconds since the zero Time, which is 0. The
-- fetch under way is a number that stands for it.
pub record State : Type 0 where
  pub cached : Option KeySet
  pub fetched : ℕ
  pub failure : Option Error
  pub inflight : Option ℕ

-- `now.Sub(fetched) < d`: the difference stops at the largest int64, and is negative where the clock
-- went back.
unfoldable pub younger : ℕ → ℕ → ℕ → Bool
younger now fetched d = if ltb now fetched then true else ltb (min (now - fetched) (2 ^ 63 - 1)) d

-- The keys that are younger than the refresh interval, if there are keys.
unfoldable pub fresh : Source → State → ℕ → Option KeySet
fresh source state now = if younger now state.fetched source.interval then state.cached else none

-- What the first critical section of load gives: a result, a fetch to wait for, or a new fetch.
pub data Decision : Type 0 where
  answer : Result KeySet → Decision
  join : ℕ → Decision
  lead : Decision

-- The inner switch, inside the minimum interval.
unfoldable pub throttled : State → Bool → Result KeySet
throttled state forced = elim state.cached [
  | some keys ↦ if forced then err (too_soon ∷ []) else ok keys
  | none ↦ elim state.failure [ some e ↦ err (too_soon ∷ e) | none ↦ err (too_soon ∷ []) ]
]

unfoldable pub decide : Source → State → ℕ → Bool → Decision
decide source state now forced = elim (if forced then none else fresh source state now) [
  | some keys ↦ answer (ok keys)
  | none ↦
      if not (eqb state.fetched 0) && younger now state.fetched source.minimum
      then answer (throttled state forced)
      else elim state.inflight [ some f ↦ join f | none ↦ lead ]
]

abbrev failure_of : Result KeySet → Option Error
failure_of (ok set) = none
failure_of (err e) = some e

abbrev cached_after : Option KeySet → Result KeySet → Option KeySet
cached_after before (ok set) = some set
cached_after before (err e) = before

-- The second critical section of load.
unfoldable pub settled : State → ℕ → Result KeySet → State
settled state now result = record {
  cached = cached_after state.cached result;
  fetched = now;
  failure = failure_of result;
  inflight = none;
}
