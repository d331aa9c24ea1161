-- ===== src/Jwt/Verification.antt =====
-- verifySignature, verifySignatures and Verify of token.go.
pub mod Authentic
pub mod Algorithms
pub mod Signatures
pub mod Types
pub mod Refresh
pub mod Accepted
use golang_jwt_ci_test.Prelude.{
  ℕ, ◌≡◌, Bool, true, false, not, Option, none, some, List, [], ◌∷◌, ◌++◌, Octets, ◌==◌, nat_same,
  contains, if◌then◌else◌, is_empty,
}
use golang_jwt_ci_test.Errors.{
  Result, Error, ok, err, ◌>>=◌, ◌>>◌, guard, or_fail, join, forbidden_algorithm, unverified,
  no_suitable_key, malformed_token, unsigned,
}
use golang_jwt_ci_test.Jwa.Algorithm.{Algorithm, algorithm_same, is_verifier}
use golang_jwt_ci_test.Jwk.Key.{Key}
use golang_jwt_ci_test.Jwk.KeySet.{KeySet, candidates}
use golang_jwt_ci_test.Header.Fields.{Header}
use golang_jwt_ci_test.Header.Codec
use golang_jwt_ci_test.Jws.{Signature}
use golang_jwt_ci_test.Jws
use golang_jwt_ci_test.Jwt.Token.{Payload, Token, VerificationConfig, Services, default_algorithms}
use golang_jwt_ci_test.Jwt.Claims.{IdStore, check_claims}
use golang_jwt_ci_test.Jwt.Keys.{Source, with_keys, header_candidates, verify_request}
use golang_jwt_ci_test.Jwt.Signing.{signing_input, marshal_payload, keep_payload, sign}

-- The algorithm of the header, where the configuration has it and it can verify.
unfoldable pub permitted : VerificationConfig → Option Algorithm → Result Algorithm
permitted config none = err (forbidden_algorithm ∷ [])
permitted config (some a) = do
  guard (contains config.algorithms a) (forbidden_algorithm ∷ [])
  guard (is_verifier a) (forbidden_algorithm ∷ [])
  ok a

unfoldable pub restrict : List Algorithm → List Algorithm → List Algorithm
restrict required [] = []
restrict required (a ∷ rest) =
    let others = restrict required rest in if contains required a then a ∷ others else others

abbrev pub narrow : Option (List Algorithm) → List Algorithm → List Algorithm
narrow none algorithms = algorithms
narrow (some required) algorithms = restrict required algorithms

-- The algorithms of Verify: the default ones for none, less those that are not required.
unfoldable pub effective : VerificationConfig → VerificationConfig
effective config = record config {
  algorithms =
      narrow config.required_algorithms
        (if is_empty config.algorithms then default_algorithms else config.algorithms);
}

abbrev refusal : Option Error → Error
refusal none = no_suitable_key ∷ []
refusal (some e) = e

module _ (s : Services) where
  -- The loop over the candidates, with the failures so far.
  unfoldable pub try_keys : Algorithm → Octets → Octets → List Error → List Key → Result (Unit {0})
  try_keys a input signature failures [] = err (unverified ∷ join failures)
  try_keys a input signature failures (key ∷ rest) =
      elim (s.verify a input signature key.material) [
        | ok u ↦ ok tt
        | err e ↦ try_keys a input signature (failures ++ e ∷ []) rest
      ]

  -- The part of verifySignature from the candidates.
  unfoldable pub verify_with :
      Algorithm → Octets → Octets → List Key × Option Error → List Key → Result (Unit {0})
  verify_with a input signature (from_header, refused) found =
      if is_empty (found ++ from_header)
      then err (refusal refused)
      else try_keys a input signature [] (found ++ from_header)

  unfoldable pub verify_signature :
      VerificationConfig → Octets → Option KeySet → Header → Octets → Result (Unit {0})
  verify_signature config encoded_payload set protected_header signature = do
    a ← permitted config protected_header.algorithm
    encoded_protected_header ← Codec.marshal s.header_text protected_header
    from_header ← header_candidates s protected_header a config
    verify_with a (signing_input encoded_protected_header encoded_payload) signature from_header
        (candidates (verify_request a protected_header.key_id) set)

  -- The tests of verifySignatures before verifySignature.
  unfoldable pub well_formed : Option Signature → Result (Header × Octets)
  well_formed none = err (malformed_token ∷ [])
  well_formed (some signature) = do
    protected_header ← or_fail signature.protected_header (malformed_token ∷ [])
    elim (Jws.disjoint s.header_text s.header_names (some protected_header) signature.header) [
      | ok u ↦ ok (protected_header, signature.signature)
      | err e ↦ err (malformed_token ∷ e)
    ]

  module _ (config : VerificationConfig) (encoded_payload : Octets) (set : Option KeySet) where
    -- The loop of verifySignatures, with the authenticated types and the failures so far.
    unfoldable pub verify_each :
        List (Option Signature) → List Error → List Octets → List Octets × Result (Unit {0})
    verify_each [] failures types =
        (types, if config.all_signatures then ok tt else err (unverified ∷ join failures))
    verify_each (signature ∷ rest) failures types = elim (well_formed signature) [
      | err e ↦ (types, err e)
      | ok (protected_header, octets) ↦
          elim (verify_signature config encoded_payload set protected_header octets) [
            | err e ↦
                if config.all_signatures
                then (types, err e)
                else verify_each rest (failures ++ e ∷ []) types
            | ok u ↦
                if config.all_signatures
                then verify_each rest failures (types ++ protected_header.type_ ∷ [])
                else (types ++ protected_header.type_ ∷ [], ok tt)
          ]
    ]

  abbrev pub with_types : Token → List Octets → Token
  with_types token types = record token { authenticated_types = types }

  unfoldable pub verify_signatures :
      VerificationConfig → Octets → Option KeySet → Token → Token × Result (Unit {0})
  verify_signatures config encoded_payload set token =
      let checked =
        verify_each config encoded_payload set token.signatures [] token.authenticated_types in
      (with_types token checked.0, checked.1)

-- What a call of Verify leaves behind: the states of the key source and of the IDStore, the token,
-- and the error.
pub record Outcome (K Store : Type 0) : Type 0 where
  pub source : K
  pub store : Store
  pub token : Token
  pub result : Result (Unit {0})

module _ {K Store : Type 0} (s : Services) (ids : IdStore Store) where
  abbrev pub finish : K → Token → Store × Result (Unit {0}) → Outcome K Store
  finish k token (store, err e) = record {
    source = k;
    store = store;
    token = token;
    result = err e;
  }
  finish k token (store, ok u) = record {
    source = k;
    store = store;
    token = record token { verified = true };
    result = ok tt;
  }

  abbrev pub check_verified :
      VerificationConfig → Store → K × Token × Result (Unit {0}) → Outcome K Store
  check_verified config store (k, token, err e) = record {
    source = k;
    store = store;
    token = token;
    result = err e;
  }
  check_verified config store (k, token, ok u) =
      finish k token (check_claims ids s token config store)

  abbrev pub check_encoded :
      Option (Source K) → VerificationConfig → K → Store → Token → Result Octets → Outcome K Store
  check_encoded keys config k store token (err e) = record {
    source = k;
    store = store;
    token = token;
    result = err e;
  }
  check_encoded keys config k store token (ok encoded_payload) = check_verified config store (
      with_keys (verify_signatures s config encoded_payload) keys k
        (keep_payload s token encoded_payload))

  abbrev pub check_signed :
      Option (Source K)
      → VerificationConfig
      → K
      → Store
      → Token × Result (Unit {0})
      → Outcome K Store
  check_signed keys config k store (token, err e) = record {
    source = k;
    store = store;
    token = token;
    result = err e;
  }
  check_signed keys config k store (token, ok u) =
      if is_empty token.signatures
      then record { source = k; store = store; token = token; result = err (unsigned ∷ []) }
      else check_encoded keys config k store token (marshal_payload s token.payload)

  unfoldable pub verify :
      Option (Source K) → VerificationConfig → K → Store → Token → Outcome K Store
  verify keys config k store token =
      check_signed keys (effective config) k store
        (sign s (record token { authenticated_types = [] }))
