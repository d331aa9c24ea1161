-- ===== src/Jwt/Claims/Replay.antt =====
-- What checkClaims of token.go accepts and what it leaves in the IDStore.
use golang_jwt_ci_test.Prelude.{
  ◌≡◌, ◌≢◌, ◌↔◌, ◌⊎◌, inl, inr, Bool, true, false, [], arith, ◌==◌, nat_same, list_same,
  list_eqb_iff, Bool-cases,
}
use golang_jwt_ci_test.Errors.{Result, ok, err, Result-cases}
use golang_jwt_ci_test.Jwt.Token.{Claims, Token, VerificationConfig, Services}
use golang_jwt_ci_test.Jwt.Claims.{check_values, IdStore, unused_or, check_replay, check_claims}
use golang_jwt_ci_test.Jwt.Claims.Exact.{
  IsAcceptable, check_values-IsAcceptable, IsAcceptable-check_values,
}

-- The token has an identifier that the IDStore has not seen; without an IDStore nothing changes.
module _ {Store : Type 0} (ids : IdStore Store) where
  recorded :
      {store' : Store} (r : Store × Result Bool)
      → r.0 ≡ store'
      → unused_or r.1 ≡ ok tt
      → r ≡ (store', ok true)
  recorded (x, err e) h k = ground arith
  recorded (x, ok true) h k = ground arith
  recorded (x, ok false) h k = ground arith

  abbrev pub IsFresh : VerificationConfig → Claims → Store → Store → Type 0
  IsFresh config c store store' =
      ((config.replay_check ≡ false) × (store' ≡ store))
      ⊎ ((config.replay_check ≡ true)
          × (c.id ≢ [])
          × (ids.record_id store c.id c.expiration_time ≡ (store', ok true)))

  replay_iff :
      (config : VerificationConfig) (c : Claims) (store store' : Store)
      → (check_replay ids config c store ≡ (store', ok tt)) ↔ IsFresh config c store store'
  unfolding check_replay
  replay_iff config c store store' = (
    λ h. elim (Bool-cases config.replay_check) [
      | inl e ↦ elim (Bool-cases (c.id == [])) [
        | inl i ↦ ground arith
        | inr i ↦ inr (
          e,
          (λ q. ground (arith, i, (list_eqb_iff c.id []).1 q)),
          recorded (ids.record_id store c.id c.expiration_time) (ground arith) (ground arith),
        )
      ]
      | inr e ↦ inl (e, ground arith)
    ],
    λ h. elim h [
      | inl (e, q) ↦ ground arith
      | inr (e, n, r) ↦ elim (Bool-cases (c.id == [])) [
        | inl i ↦ absurd (n ((list_eqb_iff c.id []).0 i))
        | inr i ↦ ground (arith, e, i, r)
      ]
    ],
  )

  -- checkClaims accepts a token, and leaves the IDStore as `store'`, exactly when every rule accepts
  -- it, it is neither expired nor early within the leeway, the issuer, audience, subject, media
  -- types and age are those the configuration asks for, and the IDStore either is not asked or
  -- records the identifier of the token as unused, with that state.
  pub check_claims_iff :
      (s : Services) (token : Token) (config : VerificationConfig) (store store' : Store)
      → (check_claims ids s token config store ≡ (store', ok tt))
        ↔ (IsAcceptable s token config × IsFresh config token.payload.claims store store')
  unfolding check_claims
  check_claims_iff s token config store store' = (
    λ h. elim (Result-cases (check_values s token config)) [
      | inl (u, e) ↦ (
        check_values-IsAcceptable s token config e,
        (replay_iff config token.payload.claims store store').0 (ground arith),
      )
      | inr (x, e) ↦ ground arith
    ],
    λ (a, f). ground (
      arith,
      IsAcceptable-check_values s token config a,
      (replay_iff config token.payload.claims store store').1 f,
    ),
  )

  -- A token that fails an earlier check is not recorded: the IDStore keeps its state.
  pub check_claims-keeps_store :
      (s : Services) (token : Token) (config : VerificationConfig) (store : Store)
      → ¬ IsAcceptable s token config
      → (check_claims ids s token config store).0 ≡ store
  unfolding check_claims
  check_claims-keeps_store s token config store h =
      elim (Result-cases (check_values s token config)) [
        | inl (u, e) ↦ absurd (h (check_values-IsAcceptable s token config e))
        | inr (x, e) ↦ ground arith
      ]
