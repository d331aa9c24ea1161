-- ===== src/Jwk/KeySet/Tests.antt =====
-- Three keys and a request.
use golang_jwt_ci_test.Prelude.{ℕ, List, ◌≡◌, refl, none, some, [], ◌∷◌, text}
use golang_jwt_ci_test.Errors.{ok}
use golang_jwt_ci_test.Jwa.Algorithm.{hs256}
use golang_jwt_ci_test.Jwa.Material.{octets}
use golang_jwt_ci_test.Jwk.Key.{Key, suitable, weight, signature, encryption, verify}
use golang_jwt_ci_test.Jwk.KeySet.{
  KeySet, Request, suits, rank, usable, sort_stable, candidates, key,
}
use golang_jwt_ci_test.Jwk.KeySet.Ranking.{
  candidates_ranked, key-eq_head, Falling, Serving, of_rank,
}

abbrev plain : Key
plain = record {
  key_type = text "oct";
  public_key_use = [];
  operations = [];
  algorithm = none;
  id = [];
  material = some (octets (1 ∷ []));
}

abbrev named : Key
named = record plain { id = text "k1"; material = some (octets (2 ∷ [])) }

abbrev for_encryption : Key
for_encryption = record plain { public_key_use = encryption }

abbrev set : KeySet
set = record { keys = some plain ∷ none ∷ some for_encryption ∷ some named ∷ [] }

abbrev request : Request
request = record {
  public_key_use = signature;
  operations = verify ∷ [];
  algorithm = some hs256;
  id = text "k1";
}

candidates_run : candidates request (some set) ≡ named ∷ plain ∷ []
unfolding candidates usable sort_stable suits rank suitable weight
candidates_run = refl

candidates_ranked_example :
    Falling request (candidates request (some set))
    × ((serving : List Key) × Serving request set.keys serving
        × ((n : ℕ) → of_rank request n (candidates request (some set)) ≡ of_rank request n serving))
candidates_ranked_example = candidates_ranked request set

key-eq_head_example : key request (some set) ≡ ok named
unfolding candidates usable sort_stable suits rank suitable weight
key-eq_head_example = key-eq_head request (some set)
