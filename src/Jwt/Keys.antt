-- ===== src/Jwt/Keys.antt =====
-- The keys for a verification: withKeys of token.go with its second attempt, and the key that a
-- token holds (headerkey.go). A source has a state of its own, which Get and Refresh change.
pub mod Attempts
use golang_jwt_ci_test.Prelude.{
  ℕ, ◌≡◌, Bool, true, false, Option, none, some, List, [], ◌∷◌, ◌++◌, Octets, ◌==◌, nat_same,
  list_same, if◌then◌else◌, is_empty,
}
use golang_jwt_ci_test.Errors.{
  Result, Error, ok, err, ◌>>=◌, ◌>>◌, guard, lacks_key, symmetric_header_key, private_header_key,
  header_key_refused,
}
use golang_jwt_ci_test.Jwa.Algorithm.{Algorithm}
use golang_jwt_ci_test.Jwk.Key
use golang_jwt_ci_test.Jwk.Key.{is_private, type_of, octet_sequence}
use golang_jwt_ci_test.Jwk.KeySet.{KeySet, Request, candidates}
use golang_jwt_ci_test.Header.Fields.{Header}
use golang_jwt_ci_test.Jwt.Token.{VerificationConfig, Services}

-- jwk.Source, and jwk.Refresher where there is a Refresh.
pub record Source (K : Type 0) : Type 0 where
  pub get : K → K × Result (Option KeySet)
  pub refresh : Option (K → K × Result (Option KeySet))

module _ {K S : Type 0} (attempt : Option KeySet → S → S × Result (Unit {0})) where
  -- The part of withKeys after Refresh; `e` is the error of the first attempt.
  unfoldable pub try_again : Error → S → K × Result (Option KeySet) → K × S × Result (Unit {0})
  try_again e s (k, err refresh_error) = (k, s, err (e ++ refresh_error))
  try_again e s (k, ok set) = (k, (attempt set s).0, (attempt set s).1)

  unfoldable pub after_attempt :
      Option (K → K × Result (Option KeySet))
      → K
      → S × Result (Unit {0})
      → K × S × Result (Unit {0})
  unfolding try_again
  after_attempt refresh k (s, ok u) = (k, s, ok u)
  after_attempt none k (s, err e) = (k, s, err e)
  after_attempt (some refresh) k (s, err e) =
      if lacks_key e then try_again e s (refresh k) else (k, s, err e)

  unfoldable pub after_get : Source K → S → K × Result (Option KeySet) → K × S × Result (Unit {0})
  unfolding after_attempt
  after_get source s (k, err e) = (k, s, err e)
  after_get source s (k, ok set) = after_attempt source.refresh k (attempt set s)

  unfoldable pub with_keys : Option (Source K) → K → S → K × S × Result (Unit {0})
  unfolding after_get
  with_keys none k s = (k, (attempt none s).0, (attempt none s).1)
  with_keys (some source) k s = after_get source s (source.get k)

-- The request of a verification: the "sig" use and the "verify" operation.
abbrev pub verify_request : Algorithm → Octets → Request
verify_request a id = record {
  public_key_use = Key.signature;
  operations = Key.verify ∷ [];
  algorithm = some a;
  id = id;
}

module _ (s : Services) where
  unfoldable pub check_header_certificates : Header → Key.Key → Result (Unit {0})
  check_header_certificates protected_header key =
      if protected_header.x509_certificate_chain == []
      then ok tt
      else s.check_header_certificates key protected_header

  abbrev header_key_in : Header → Option Key.Key → List Octets → Result (Option Key.Key)
  header_key_in protected_header (some key) chain = do
    guard (if type_of (some key) == octet_sequence then false else true) (symmetric_header_key ∷ [])
    guard (if is_private (some key) then false else true) (private_header_key ∷ [])
    check_header_certificates protected_header key
    ok (some key)
  header_key_in protected_header none [] = ok none
  header_key_in protected_header none (leaf ∷ rest) = do
    key ← s.certificate_key leaf
    check_header_certificates protected_header key
    ok (some key)

  unfoldable pub header_key : Header → Result (Option Key.Key)
  header_key protected_header =
      header_key_in protected_header protected_header.jwk protected_header.x509_certificate_chain

  unfoldable pub apply_policies : Key.Key → Header → List ℕ → Result (Unit {0})
  apply_policies key protected_header [] = ok tt
  apply_policies key protected_header (p ∷ rest) = do
    s.policy p key protected_header
    apply_policies key protected_header rest

  abbrev refused_or : List Key.Key → Result (Unit {0}) → List Key.Key × Option Error
  refused_or found (ok u) = (found, none)
  refused_or found (err e) = ([], some (header_key_refused ∷ e))

  abbrev from_key :
      Header → Algorithm → VerificationConfig → Option Key.Key → List Key.Key × Option Error
  from_key protected_header a config none = ([], none)
  from_key protected_header a config (some key) =
      let found =
        candidates (verify_request a protected_header.key_id)
          (some (record { keys = some key ∷ [] })) in
      if is_empty found
      then ([], none)
      else refused_or found (apply_policies key protected_header config.header_keys)

  -- The candidates, and the refusal of a policy.
  unfoldable pub header_candidates :
      Header → Algorithm → VerificationConfig → Result (List Key.Key × Option Error)
  header_candidates protected_header a config =
      if is_empty config.header_keys
      then ok ([], none)
      else do key ← header_key protected_header; ok (from_key protected_header a config key)
