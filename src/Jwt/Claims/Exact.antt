-- ===== src/Jwt/Claims/Exact.antt =====
-- What the claim checks of token.go accept.
use golang_jwt_ci_test.Prelude.{
  ℕ, ◌≡◌, ◌↔◌, ◌⊎◌, inl, inr, refl, ap, true, false, not, ◌&&◌, Option, none, some, List, [], ◌∷◌,
  arith, Octets, ◌==◌, nat_same, list_same, list_eqb_iff, contains, contains_func, All, Bool-cases,
}
use golang_jwt_ci_test.Prelude.Int.{ℤ, pos, ◌+ℤ◌, ◌-ℤ◌, ◌<ℤ◌, ◌≤ℤ◌}
use golang_jwt_ci_test.Errors.{ok}
use golang_jwt_ci_test.Jwt.Token.{Claims, Token, VerificationConfig, Services}
use golang_jwt_ci_test.Jwt.Claims.{
  is_carried, missing, require_claims, now, is_expired, is_early, check_age_of, check_age,
  is_expected_type, check_types, check_type, apply_rules, check_values,
}

module _ (c : Claims) where
  missing-None :
      (names : List Octets) → missing c names ≡ [] → All (λ name. is_carried c name ≡ true) names
  unfolding missing
  missing-None [] h = tt
  missing-None (name ∷ rest) h = (ground arith, missing-None rest (ground arith))

  None-missing :
      (names : List Octets) → All (λ name. is_carried c name ≡ true) names → missing c names ≡ []
  unfolding missing
  None-missing [] h = refl
  None-missing (name ∷ rest) h = ground (arith, h.0, None-missing rest h.1)

  -- requireClaims accepts a set of claims exactly when each of the names is carried.
  pub require_claims_iff :
      (names : List Octets)
      → (require_claims c names ≡ ok tt) ↔ All (λ name. is_carried c name ≡ true) names
  unfolding require_claims
  require_claims_iff names = (
    λ h. missing-None names (ground (arith, list_eqb_iff (missing c names) [])),
    λ h. ground (arith, None-missing names h),
  )

-- Where there is a limit of the age, the token has an "iat" that is neither after the current time
-- nor older than the limit, each with the leeway.
abbrev pub IsRecent : ℤ → VerificationConfig → Option ℤ → Type 0
IsRecent now config none = config.max_age ≤ℤ pos 0
IsRecent now config (some t) =
    pos 0 <ℤ config.max_age
    → (t ≤ℤ (now +ℤ config.leeway)) × (now ≤ℤ ((t +ℤ config.max_age) +ℤ config.leeway))

pub check_age-IsRecent :
    (t : ℤ) (config : VerificationConfig) (issued_at : Option ℤ)
    → check_age t config issued_at ≡ ok tt
    → IsRecent t config issued_at
unfolding check_age check_age_of
check_age-IsRecent t config none h = ground arith
check_age-IsRecent t config (some i) h = λ p. (ground arith, ground arith)

-- checkAge accepts an "iat" claim exactly when the configuration limits no age, or the claim is
-- present, not after the current time, and not older than the limit, each with the leeway.
pub check_age_iff :
    (t : ℤ) (config : VerificationConfig) (issued_at : Option ℤ)
    → (check_age t config issued_at ≡ ok tt) ↔ IsRecent t config issued_at
unfolding check_age check_age_of
check_age_iff t config none = (check_age-IsRecent t config none, λ h. ground arith)
check_age_iff t config (some i) = (check_age-IsRecent t config (some i), λ h. ground arith)

-- What checkClaims asks of a token before the IDStore, field by field.
abbrev pub InTime : ℤ → ℤ → Option ℤ → Type 0
InTime now leeway none = Unit
InTime now leeway (some t) = now ≤ℤ (t +ℤ leeway)

abbrev pub InForce : ℤ → ℤ → Option ℤ → Type 0
InForce now leeway none = Unit
InForce now leeway (some t) = (t -ℤ leeway) ≤ℤ now

-- An expected text that is not empty is the one of the claim.
abbrev pub IsExpected : Octets → Octets → Type 0
IsExpected expected actual = (expected ≡ []) ⊎ (actual ≡ expected)

abbrev pub Shares : List Octets → List Octets → Type 0
Shares expected actual =
    (expected ≡ []) ⊎ ((a : Octets) × (contains expected a ≡ true) × (contains actual a ≡ true))

in_time : (n l : ℤ) (o : Option ℤ) → (is_expired n l o ≡ false) ↔ InTime n l o
unfolding is_expired
in_time n l none = ground arith
in_time n l (some t) = ground arith

in_force : (n l : ℤ) (o : Option ℤ) → (is_early n l o ≡ false) ↔ InForce n l o
unfolding is_early
in_force n l none = ground arith
in_force n l (some t) = ground arith

IsExpected-iff :
    (want got : Octets) → ((not (want == []) && not (got == want)) ≡ false) ↔ IsExpected want got
IsExpected-iff want got = (
  λ h. elim (Bool-cases (want == [])) [
    | inl e ↦ inl ((list_eqb_iff want []).0 e)
    | inr e ↦ inr ((list_eqb_iff got want).0 (ground arith))
  ],
  λ h. ground (arith, h, list_eqb_iff want [], list_eqb_iff got want),
)

audience_some :
    (want got : List Octets)
    → contains_func (λ a. contains got a) want ≡ true
    → (a : Octets) × (contains want a ≡ true) × (contains got a ≡ true)
audience_some [] got h = ground arith
audience_some (w ∷ rest) got h = elim (Bool-cases (contains got w)) [
  | inl e ↦ (w, ground (arith, list_eqb_iff w w), e)
  | inr e ↦ let (a, i, j) = audience_some rest got (ground arith) in (a, ground arith, j)
]

some_audience :
    (want got : List Octets) (a : Octets)
    → contains want a ≡ true
    → contains got a ≡ true
    → contains_func (λ a. contains got a) want ≡ true
some_audience [] got a h k = ground arith
some_audience (w ∷ rest) got a h k = elim (Bool-cases (w == a)) [
  | inl e ↦ ground (arith, k, ap (contains got) ((list_eqb_iff w a).0 e))
  | inr e ↦ ground (arith, some_audience rest got a)
]

Shares-iff :
    (want got : List Octets)
    → ((not (want == []) && not (contains_func (λ a. contains got a) want)) ≡ false)
      ↔ Shares want got
Shares-iff want got = (
  λ h. elim (Bool-cases (want == [])) [
    | inl e ↦ inl ((list_eqb_iff want []).0 e)
    | inr e ↦ inr (audience_some want got (ground arith))
  ],
  λ h. elim h [
    | inl e ↦ ground (arith, (list_eqb_iff want []).1 e)
    | inr (a, i, j) ↦ ground (arith, some_audience want got a i j)
  ],
)

module _ (s : Services) where
  types_iff :
      (want : Octets) (types : List Octets)
      → (check_types s want types ≡ ok tt) ↔ All (λ m. is_expected_type s want m ≡ true) types
  unfolding check_types
  types_iff want [] = ground arith
  types_iff want (m ∷ rest) = (
    λ h. (ground arith, (types_iff want rest).0 (ground arith)),
    λ h. ground (arith, h.0, (types_iff want rest).1 h.1),
  )

  type_iff :
      (config : VerificationConfig) (types : List Octets)
      → (check_type s config types ≡ ok tt) ↔ (
          (config.any_type ≡ true)
          ⊎ All (λ m. is_expected_type s config.expected_type m ≡ true) types)
  unfolding check_type
  type_iff config types = (
    λ h. elim (Bool-cases config.any_type) [
      | inl e ↦ inl e
      | inr e ↦ inr ((types_iff config.expected_type types).0 (ground arith))
    ],
    λ h. elim h [
      | inl e ↦ ground arith
      | inr a ↦ ground (arith, (types_iff config.expected_type types).1 a)
    ],
  )

  rules_iff :
      (token : Token) (config : VerificationConfig) (rules : List ℕ)
      → (apply_rules s token config rules ≡ ok tt) ↔ All (λ r. s.rule r token config ≡ ok tt) rules
  unfolding apply_rules
  rules_iff token config [] = ground arith
  rules_iff token config (r ∷ rest) = (
    λ h. (ground arith, (rules_iff token config rest).0 (ground arith)),
    λ h. ground (arith, h.0, (rules_iff token config rest).1 h.1),
  )

  -- What a configuration asks of the claims and of the authenticated types of a token.
  pub record IsAcceptable (token : Token) (config : VerificationConfig) : Type 0 where
    pub rules : All (λ r. s.rule r token config ≡ ok tt) config.rules
    pub expiration_time : InTime (now s config) config.leeway token.payload.claims.expiration_time
    pub not_before : InForce (now s config) config.leeway token.payload.claims.not_before
    pub issuer : IsExpected config.expected_issuer token.payload.claims.issuer
    pub audience : Shares config.expected_audience token.payload.claims.audience
    pub subject : IsExpected config.expected_subject token.payload.claims.subject
    pub media_type :
        (config.any_type ≡ true)
        ⊎ All (λ m. is_expected_type s config.expected_type m ≡ true) token.authenticated_types
    pub age : IsRecent (now s config) config token.payload.claims.issued_at

  pub check_values-IsAcceptable :
      (token : Token) (config : VerificationConfig)
      → check_values s token config ≡ ok tt
      → IsAcceptable token config
  unfolding check_values
  check_values-IsAcceptable token config h = record {
    rules = (rules_iff token config config.rules).0 (ground arith);
    expiration_time =
        (in_time (now s config) config.leeway token.payload.claims.expiration_time).0
          (ground arith);
    not_before =
        (in_force (now s config) config.leeway token.payload.claims.not_before).0 (ground arith);
    issuer = (IsExpected-iff config.expected_issuer token.payload.claims.issuer).0 (ground arith);
    audience = (Shares-iff config.expected_audience token.payload.claims.audience).0 (ground arith);
    subject =
        (IsExpected-iff config.expected_subject token.payload.claims.subject).0 (ground arith);
    media_type = (type_iff config token.authenticated_types).0 (ground arith);
    age = (check_age_iff (now s config) config token.payload.claims.issued_at).0 (ground arith);
  }

  pub IsAcceptable-check_values :
      (token : Token) (config : VerificationConfig)
      → IsAcceptable token config
      → check_values s token config ≡ ok tt
  unfolding check_values
  IsAcceptable-check_values token config a =
      let c = token.payload.claims in
      ground (
        arith,
        (rules_iff token config config.rules).1 a.rules,
        (in_time (now s config) config.leeway c.expiration_time).1 a.expiration_time,
        (in_force (now s config) config.leeway c.not_before).1 a.not_before,
        (IsExpected-iff config.expected_issuer c.issuer).1 a.issuer,
        (Shares-iff config.expected_audience c.audience).1 a.audience,
        (IsExpected-iff config.expected_subject c.subject).1 a.subject,
        (type_iff config token.authenticated_types).1 a.media_type,
        (check_age_iff (now s config) config c.issued_at).1 a.age,
      )
