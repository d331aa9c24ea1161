-- ===== src/Jwk/KeySet.antt =====
-- KeySet of jwk/key.go: the keys for a function, and the best of them. A nil set or key is `none`.
pub mod Ranking
mod Tests
use golang_jwt_ci_test.Prelude.{
  ℕ, ◌<◌, ◌≡◌, Bool, true, false, ◌&&◌, Option, none, some, List, [], ◌∷◌, Octets, length, ltb,
  if◌then◌else◌,
}
use golang_jwt_ci_test.Errors.{Result, ok, err, or_fail, no_suitable_key}
use golang_jwt_ci_test.Jwa.Algorithm.{Algorithm}
use golang_jwt_ci_test.Jwk.Key.{Key, suitable, weight}

pub record KeySet : Type 0 where
  pub keys : List (Option Key)

-- A request for keys: the arguments that Key and Candidates share.
pub record Request : Type 0 where
  pub public_key_use : Octets
  pub operations : List Octets
  pub algorithm : Option Algorithm
  pub id : Octets

unfoldable pub suits : Request → Key → Bool
suits r key = suitable key r.public_key_use r.operations r.algorithm r.id

unfoldable pub rank : Request → Key → ℕ
rank r key = weight key r.public_key_use r.operations r.algorithm r.id

module _ (r : Request) where
  -- The loop of Candidates.
  unfoldable pub usable : List (Option Key) → List Key
  usable [] = []
  usable (none ∷ rest) = usable rest
  usable (some key ∷ rest) =
      let others = usable rest in if suits r key then key ∷ others else others

  -- slices.SortStableFunc by falling weight, as a stable insertion sort.
  unfoldable pub insert : Key → List Key → List Key
  insert key [] = key ∷ []
  insert key (other ∷ rest) =
      let later = insert key rest in
      if ltb (rank r key) (rank r other) then other ∷ later else key ∷ other ∷ rest

  unfoldable pub sort_stable : List Key → List Key
  unfolding insert
  sort_stable [] = []
  sort_stable (key ∷ rest) = insert key (sort_stable rest)

  unfoldable pub candidates : Option KeySet → List Key
  candidates none = []
  candidates (some set) =
      let found = usable set.keys in if ltb (length found) 2 then found else sort_stable found

  -- The loop of Key, with `best` and `weight` so far.
  unfoldable pub best_of : Option Key → ℕ → List (Option Key) → Option Key
  best_of best weight [] = best
  best_of best weight (none ∷ rest) = best_of best weight rest
  best_of none weight (some key ∷ rest) =
      let found = best_of (some key) (rank r key) rest in
      let passed = best_of none weight rest in if suits r key then found else passed
  best_of (some best) weight (some key ∷ rest) =
      let found = best_of (some key) (rank r key) rest in
      let passed = best_of (some best) weight rest in
      if suits r key && ltb weight (rank r key) then found else passed

  unfoldable pub key : Option KeySet → Result Key
  key none = err (no_suitable_key ∷ [])
  key (some set) = or_fail (best_of none 0 set.keys) (no_suitable_key ∷ [])
