-- ===== src/Jwt/Tests.antt =====
-- A token with one signature and an identifier, over a toy scheme and a store of identifiers.
use golang_jwt_ci_test.Prelude.{
  ℕ, ◌+◌, ◌≡◌, ◌⊎◌, inl, inr, refl, ap, sym, Bool, true, false, not, Option, none, some, List, [],
  ◌∷◌, arith, Octets, text, ◌==◌, nat_same, list_same, contains, if◌then◌else◌,
}
use golang_jwt_ci_test.Prelude.Int.{pos, ◌+ℤ◌, ◌-ℤ◌}
use golang_jwt_ci_test.Errors.{
  Result, Error, ok, err, foreign, no_suitable_key, unverified, replayed_token, lacks_key,
}
use golang_jwt_ci_test.Jwa.Algorithm.{algorithm_same, hs256, is_verifier, index}
use golang_jwt_ci_test.Jwa.Material.{octets}
use golang_jwt_ci_test.Jwk.Key.{Key, octet_sequence, suitable}
use golang_jwt_ci_test.Jwk.KeySet.{KeySet, candidates, usable, suits, sort_stable}
use golang_jwt_ci_test.Header.Fields.{Header}
use golang_jwt_ci_test.Header.Codec.{Text}
use golang_jwt_ci_test.Header.Codec
use golang_jwt_ci_test.Header.Members.{members}
use golang_jwt_ci_test.Header.RoundTrip.{empty}
use golang_jwt_ci_test.Jws.{Signature}
use golang_jwt_ci_test.Jws
use golang_jwt_ci_test.Jwt.Token.{Claims, Token, VerificationConfig, Services, with_expected_issuer}
use golang_jwt_ci_test.Jwt.Claims.{
  IdStore, check_age, check_age_of, check_claims, check_values, check_replay, check_type,
  check_types, is_expected_type, is_expired, is_early, now, apply_rules,
}
use golang_jwt_ci_test.Jwt.Claims.Exact.{IsAcceptable}
use golang_jwt_ci_test.Jwt.Claims.Replay.{IsFresh, check_claims_iff, check_claims-keeps_store}
use golang_jwt_ci_test.Jwt.Keys.{
  Source, with_keys, after_get, after_attempt, try_again, header_candidates,
}
use golang_jwt_ci_test.Jwt.Keys.Attempts.{FirstAttempt, SecondAttempt, with_keys_iff}
use golang_jwt_ci_test.Jwt.Signing.{signing_input, marshal_payload, keep_payload, sign, sign_each}
use golang_jwt_ci_test.Jwt.Verification.{
  permitted, restrict, effective, try_keys, verify_with, verify_signature, well_formed, verify_each,
  verify_signatures, Outcome, verify,
}
use golang_jwt_ci_test.Jwt.Verification.Authentic.{IsAuthentic, verify_signature_iff}
use golang_jwt_ci_test.Jwt.Verification.Signatures.{AreVerified, verify_signatures_iff}
use golang_jwt_ci_test.Jwt.Verification.Types.{TypesOf, verify_signatures-TypesOf}
use golang_jwt_ci_test.Jwt.Verification.Refresh.{Decides, HasCandidate, with_keys-no_refresh}
use golang_jwt_ci_test.Jwt.Verification.Accepted.{Accepted, verify-Accepted}

abbrev secret : Key
secret = record {
  key_type = octet_sequence;
  public_key_use = [];
  operations = [];
  algorithm = none;
  id = [];
  material = some (octets (1 ∷ 2 ∷ []));
}

abbrev sample_claims : Claims
sample_claims = record {
  audience = [];
  expiration_time = some (pos 200);
  issued_at = some (pos 90);
  issuer = text "me";
  id = text "1";
  not_before = none;
  subject = [];
  private_claims = [];
}

-- The toy scheme signs an input with the input itself.
abbrev sample_signature : Signature
sample_signature = record {
  protected_header = some (record empty { algorithm = some hs256; encoded_header = text "h" });
  header = none;
  signature = text "h.p";
}

abbrev sample_token : Token
sample_token = record {
  payload = record { claims = sample_claims; encoded_payload = text "p" };
  signatures = some sample_signature ∷ [];
  pending = [];
  token_type = [];
  issuance_checks = [];
  authenticated_types = [];
  verified = false;
}

abbrev sample_config : VerificationConfig
sample_config = record {
  algorithms = [];
  expected_issuer = text "me";
  expected_subject = [];
  expected_audience = [];
  leeway = pos 5;
  expected_type = [];
  max_age = pos 30;
  replay_check = true;
  clock = some (pos 100);
  rules = [];
  header_keys = [];
  required_algorithms = some (hs256 ∷ []);
  all_signatures = false;
  any_type = false;
}

abbrev toy_text : Text
toy_text = record {
  write_json = λ r. text "{}";
  read_json = λ json. err (foreign 0 ∷ []);
  url_string = λ u. [];
  url_parse = λ u. ok 0;
}

abbrev toy_services : Services
toy_services = record {
  verify = λ a input signature material. if signature == input then ok tt else err (foreign 1 ∷ []);
  sign = λ a input material. ok input;
  write_claims = λ c. ok (text "{}");
  read_claims = λ json. err (foreign 2 ∷ []);
  header_text = toy_text;
  header_names = λ json. ok [];
  equal_fold = λ a b. a == b;
  certificate_key = λ c. err (foreign 3 ∷ []);
  check_certificate_chain = λ key chain. ok tt;
  check_header_certificates = λ key h. ok tt;
  policy = λ p key h. ok tt;
  rule = λ r token config. ok tt;
  issuance_rule = λ r token. (token, ok tt);
  time_now = pos 0;
}

-- The identifiers seen so far.
abbrev seen : IdStore (List Octets)
seen = record { record_id = λ ids id expiry. (id ∷ ids, ok (not (contains ids id))) }

-- The first set is empty; Refresh gives the secret. The state counts the requests.
abbrev rotated : Source Bool
rotated = record {
  get = λ k. (k, ok (some (record { keys = [] })));
  refresh = some (λ k. (true, ok (some (record { keys = some secret ∷ [] }))));
}

abbrev run : Outcome Bool (List Octets)
run = verify toy_services seen (some rotated) sample_config false [] sample_token

run_ok : run.result ≡ ok tt
unfolding verify sign sign_each effective restrict marshal_payload keep_payload with_keys after_get
    after_attempt try_again verify_signatures verify_each well_formed Jws.disjoint members
    verify_signature permitted is_verifier Codec.marshal header_candidates verify_with try_keys
    candidates usable suits suitable sort_stable signing_input check_claims check_values apply_rules
    now is_expired is_early check_type check_types is_expected_type check_age check_age_of
    check_replay ◌+ℤ◌ ◌-ℤ◌ index
run_ok = refl

verify-Accepted_example :
    Accepted toy_services seen (some rotated) sample_config false [] sample_token run
verify-Accepted_example =
    verify-Accepted toy_services seen (some rotated) sample_config false [] sample_token run_ok

-- A second use of the token is a replay.
replayed :
    (verify toy_services seen (some rotated) sample_config true run.store sample_token).result
    ≡ err (replayed_token ∷ [])
unfolding verify sign sign_each effective restrict marshal_payload keep_payload with_keys after_get
    after_attempt try_again verify_signatures verify_each well_formed Jws.disjoint members
    verify_signature permitted is_verifier Codec.marshal header_candidates verify_with try_keys
    candidates usable suits suitable sort_stable signing_input check_claims check_values apply_rules
    now is_expired is_early check_type check_types is_expected_type check_age check_age_of
    check_replay ◌+ℤ◌ ◌-ℤ◌ index
replayed = refl

claims_ok : check_claims seen toy_services sample_token sample_config [] ≡ (text "1" ∷ [], ok tt)
unfolding check_claims check_values apply_rules now is_expired is_early check_type check_types
    is_expected_type check_age check_age_of check_replay ◌+ℤ◌ ◌-ℤ◌
claims_ok = refl

check_claims_iff_example :
    IsAcceptable toy_services sample_token sample_config
    × IsFresh seen sample_config sample_claims [] (text "1" ∷ [])
check_claims_iff_example =
    (check_claims_iff seen toy_services sample_token sample_config [] (text "1" ∷ [])).0 claims_ok

abbrev other_config : VerificationConfig
other_config = with_expected_issuer (text "you") sample_config

not-IsAcceptable : ¬ IsAcceptable toy_services sample_token other_config
unfolding with_expected_issuer
not-IsAcceptable a = elim a.issuer [ inl e ↦ ground arith | inr e ↦ ground arith ]

check_claims-keeps_store_example :
    (check_claims seen toy_services sample_token other_config []).0 ≡ []
check_claims-keeps_store_example =
    check_claims-keeps_store seen toy_services sample_token other_config [] not-IsAcceptable

age_ok : check_age (pos 100) sample_config (some (pos 90)) ≡ ok tt
unfolding check_age check_age_of ◌+ℤ◌
age_ok = refl

-- An attempt that counts itself and wants a key in the set.
abbrev count_keys : Option KeySet → ℕ → ℕ × Result (Unit {0})
count_keys none n = (n + 1, err (no_suitable_key ∷ []))
count_keys (some set) n =
    (n + 1, elim set.keys [ [] ↦ err (no_suitable_key ∷ []) | key ∷ rest ↦ ok tt ])

attempts_ok : with_keys count_keys (some rotated) false 0 ≡ (true, 2, ok tt)
unfolding with_keys after_get after_attempt try_again
attempts_ok = refl

with_keys_iff_example :
    FirstAttempt count_keys rotated false 0 true 2 ⊎ SecondAttempt count_keys rotated false 0 true 2
with_keys_iff_example = (with_keys_iff count_keys rotated false true 0 2).0 attempts_ok

abbrev key_set : Option KeySet
key_set = some (record { keys = some secret ∷ [] })

abbrev hs256_config : VerificationConfig
hs256_config = record sample_config { algorithms = hs256 ∷ [] }

abbrev sample_header : Header
sample_header = record empty { algorithm = some hs256; encoded_header = text "h" }

signature_ok :
    verify_signature toy_services hs256_config (text "p") key_set sample_header (text "h.p") ≡ ok tt
unfolding verify_signature permitted is_verifier Codec.marshal header_candidates verify_with
    try_keys candidates usable suits suitable signing_input index
signature_ok = refl

verify_signature_iff_example :
    IsAuthentic toy_services hs256_config (text "p") key_set sample_header (text "h.p")
verify_signature_iff_example =
    (verify_signature_iff toy_services hs256_config (text "p") key_set sample_header (text "h.p")).0
      signature_ok

signatures_ok :
    (verify_signatures toy_services hs256_config (text "p") key_set sample_token).1 ≡ ok tt
unfolding verify_signatures verify_each well_formed Jws.disjoint members verify_signature permitted
    is_verifier Codec.marshal header_candidates verify_with try_keys candidates usable suits
    suitable signing_input index
signatures_ok = refl

verify_signatures_iff_example :
    AreVerified toy_services hs256_config (text "p") key_set false (some sample_signature ∷ [])
verify_signatures_iff_example =
    (verify_signatures_iff toy_services hs256_config (text "p") key_set sample_token).0
      signatures_ok

verify_signatures-TypesOf_example :
    TypesOf toy_services hs256_config
      (text "p")
      key_set
      false
      (some sample_signature ∷ [])
      []
      (verify_signatures toy_services hs256_config
        (text "p")
        key_set
        sample_token).0.authenticated_types
verify_signatures-TypesOf_example =
    verify_signatures-TypesOf toy_services hs256_config (text "p") key_set sample_token
      signatures_ok

error_of : Result (Unit {0}) → Error
error_of (ok u) = []
error_of (err e) = e

abbrev verdict : Bool → Result (Unit {0})
verdict b = if b then ok tt else err (foreign 1 ∷ [])

decided : (b : Bool) (e : Error) → verdict b ≡ err e → lacks_key e ≡ false
unfolding error_of
decided true e h = ap (λ r. lacks_key (error_of r)) (sym h)
decided false e h = ap (λ r. lacks_key (error_of r)) (sym h)

toy_decides : Decides toy_services
toy_decides a input signature key e h = decided (signature == input) e h

-- Get gives the secret, and Refresh would change the state.
abbrev supplied : Source Bool
supplied = record { get = λ k. (k, ok key_set); refresh = some (λ k. (true, ok key_set)) }

sample-HasCandidate : HasCandidate toy_services hs256_config key_set (some sample_signature)
unfolding well_formed Jws.disjoint members permitted is_verifier Codec.marshal header_candidates
    candidates usable suits suitable index
sample-HasCandidate =
    ((sample_header, text "h.p"), hs256, text "h", ([], none), refl, refl, refl, refl, refl)

with_keys-no_refresh_example :
    with_keys
      (verify_signatures toy_services hs256_config (text "other"))
      (some supplied)
      false
      sample_token
    ≡ (
      false,
      (verify_signatures toy_services hs256_config (text "other") key_set sample_token).0,
      (verify_signatures toy_services hs256_config (text "other") key_set sample_token).1,
    )
with_keys-no_refresh_example =
    with_keys-no_refresh toy_services toy_decides hs256_config (text "other") supplied false false
      key_set sample_token refl (sample-HasCandidate, tt)

-- No candidate accepts that payload.
other_refused :
    (verify_signatures toy_services hs256_config (text "other") key_set sample_token).1
    ≡ err (unverified ∷ unverified ∷ foreign 1 ∷ [])
unfolding verify_signatures verify_each well_formed Jws.disjoint members verify_signature permitted
    is_verifier Codec.marshal header_candidates verify_with try_keys candidates usable suits
    suitable signing_input index
other_refused = refl
