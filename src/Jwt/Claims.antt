-- ===== src/Jwt/Claims.antt =====
-- The claim checks of token.go (requireClaims, checkClaims, checkType, checkAge, checkReplay) with
-- mediatype.go. The IDStore is a state that the model passes on, with its operation as a parameter.
pub mod Exact
pub mod Replay
use golang_jwt_ci_test.Prelude.{
  ℕ, Bool, true, false, not, ◌&&◌, ◌||◌, Option, none, some, List, [], ◌∷◌, ◌++◌, Octets, text,
  ◌==◌, nat_same, list_same, contains, contains_func, if◌then◌else◌,
}
use golang_jwt_ci_test.Prelude.Int.{ℤ, pos, ◌+ℤ◌, ◌-ℤ◌, ltb_ℤ}
use golang_jwt_ci_test.Errors.{
  Result, Error, ok, err, ◌>>=◌, ◌>>◌, guard, missing_required_claim, expired, not_yet_valid,
  unexpected_issuer, unexpected_audience, unexpected_subject, unexpected_type, issued_in_future,
  too_old, replayed_token,
}
use golang_jwt_ci_test.Jwt.Token.{Claims, Value, Token, VerificationConfig, Services}

abbrev pub is_present {ℓ} : {A : Type ℓ} → Option A → Bool
is_present none = false
is_present (some a) = true

-- A read of the map; a missing name gives nil.
unfoldable pub private_claim : List (Octets × Value) → Octets → Value
private_claim [] name = none
private_claim ((key, value) ∷ rest) name =
    let later = private_claim rest name in if key == name then value else later

unfoldable pub is_carried : Claims → Octets → Bool
is_carried c name =
    if name == text "iss"
    then not (c.issuer == [])
    else if name == text "sub"
    then not (c.subject == [])
    else if name == text "aud"
    then not (c.audience == [])
    else if name == text "exp"
    then is_present c.expiration_time
    else if name == text "nbf"
    then is_present c.not_before
    else if name == text "iat"
    then is_present c.issued_at
    else if name == text "jti"
    then not (c.id == [])
    else is_present (private_claim c.private_claims name)

unfoldable pub missing : Claims → List Octets → List Octets
missing c [] = []
missing c (name ∷ rest) =
    let others = missing c rest in if not (is_carried c name) then name ∷ others else others

unfoldable pub require_claims : Claims → List Octets → Result (Unit {0})
require_claims c names = guard (missing c names == []) (missing_required_claim ∷ [])

-- strings.Contains(mediaType, "/")
unfoldable pub qualify_media_type : Octets → Octets
qualify_media_type media_type =
    if contains_func (λ o. o == 47) media_type
    then media_type
    else text "application/" ++ media_type

unfoldable pub now : Services → VerificationConfig → ℤ
now s config = elim config.clock [ none ↦ s.time_now | some t ↦ t ]

-- `t != nil && now.After(t.Add(leeway))`
unfoldable pub is_expired : ℤ → ℤ → Option ℤ → Bool
is_expired now leeway none = false
is_expired now leeway (some t) = ltb_ℤ (t +ℤ leeway) now

-- `t != nil && now.Before(t.Add(-leeway))`
unfoldable pub is_early : ℤ → ℤ → Option ℤ → Bool
is_early now leeway none = false
is_early now leeway (some t) = ltb_ℤ now (t -ℤ leeway)

unfoldable pub check_age_of : ℤ → ℤ → ℤ → Option ℤ → Result (Unit {0})
check_age_of now leeway max_age none = err (missing_required_claim ∷ [])
check_age_of now leeway max_age (some issued_at) = do
  guard (not (ltb_ℤ (now +ℤ leeway) issued_at)) (issued_in_future ∷ [])
  guard (not (ltb_ℤ ((issued_at +ℤ max_age) +ℤ leeway) now)) (too_old ∷ [])

unfoldable pub check_age : ℤ → VerificationConfig → Option ℤ → Result (Unit {0})
check_age now config issued_at =
    if not (ltb_ℤ (pos 0) config.max_age)
    then ok tt
    else check_age_of now config.leeway config.max_age issued_at

module _ (s : Services) where
  unfoldable pub equal_media_type : Octets → Octets → Bool
  equal_media_type got want = s.equal_fold (qualify_media_type got) (qualify_media_type want)

  unfoldable pub is_expected_type : Octets → Octets → Bool
  is_expected_type expected_type media_type =
      if expected_type == []
      then media_type == [] || equal_media_type media_type (text "JWT")
      else equal_media_type media_type expected_type

  unfoldable pub check_types : Octets → List Octets → Result (Unit {0})
  check_types expected_type [] = ok tt
  check_types expected_type (media_type ∷ rest) =
      let later = check_types expected_type rest in
      if is_expected_type expected_type media_type then later else err (unexpected_type ∷ [])

  unfoldable pub check_type : VerificationConfig → List Octets → Result (Unit {0})
  check_type config authenticated_types =
      if config.any_type then ok tt else check_types config.expected_type authenticated_types

  unfoldable pub apply_rules : Token → VerificationConfig → List ℕ → Result (Unit {0})
  apply_rules token config [] = ok tt
  apply_rules token config (r ∷ rest) = do s.rule r token config; apply_rules token config rest

  -- checkClaims up to its last call.
  unfoldable pub check_values : Token → VerificationConfig → Result (Unit {0})
  check_values token config =
      let c = token.payload.claims in
      do
        apply_rules token config config.rules
        guard (not (is_expired (now s config) config.leeway c.expiration_time)) (expired ∷ [])
        guard (not (is_early (now s config) config.leeway c.not_before)) (not_yet_valid ∷ [])
        guard (not (not (config.expected_issuer == []) && not (c.issuer == config.expected_issuer)))
            (unexpected_issuer ∷ [])
        guard
            (not (
              not (config.expected_audience == [])
              && not (contains_func (λ a. contains c.audience a) config.expected_audience)))
            (unexpected_audience ∷ [])
        guard
            (not
              (not (config.expected_subject == []) && not (c.subject == config.expected_subject)))
            (unexpected_subject ∷ [])
        check_type config token.authenticated_types
        check_age (now s config) config c.issued_at

-- IDStore
pub record IdStore (Store : Type 0) : Type 0 where
  pub record_id : Store → Octets → Option ℤ → Store × Result Bool

abbrev pub unused_or : Result Bool → Result (Unit {0})
unused_or (err e) = err e
unused_or (ok true) = ok tt
unused_or (ok false) = err (replayed_token ∷ [])

module _ {Store : Type 0} (ids : IdStore Store) where
  unfoldable pub check_replay : VerificationConfig → Claims → Store → Store × Result (Unit {0})
  check_replay config c store =
      let recorded = ids.record_id store c.id c.expiration_time in
      if not config.replay_check
      then (store, ok tt)
      else if c.id == []
      then (store, err (missing_required_claim ∷ []))
      else (recorded.0, unused_or recorded.1)

  unfoldable pub check_claims :
      Services → Token → VerificationConfig → Store → Store × Result (Unit {0})
  check_claims s token config store = elim (check_values s token config) [
    | err e ↦ (store, err e)
    | ok u ↦ check_replay config token.payload.claims store
  ]
