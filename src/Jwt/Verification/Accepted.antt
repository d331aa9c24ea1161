-- ===== src/Jwt/Verification/Accepted.antt =====
-- What Verify of token.go accepts, and the token that it leaves.
use golang_jwt_ci_test.Prelude.{
  ◌≡◌, ◌≢◌, ◌⊎◌, inl, inr, refl, sym, ap, subst, ◌∙◌, Bool, true, false, Option, none, some, [],
  ◌∷◌, arith, Octets, if◌then◌else◌, is_empty,
}
use golang_jwt_ci_test.Errors.{Result, ok, err, unsigned}
use golang_jwt_ci_test.Jwk.KeySet.{KeySet}
use golang_jwt_ci_test.Jwt.Token.{Token, VerificationConfig, Services}
use golang_jwt_ci_test.Jwt.Claims.{IdStore, check_claims}
use golang_jwt_ci_test.Jwt.Claims.Exact.{IsAcceptable}
use golang_jwt_ci_test.Jwt.Claims.Replay.{IsFresh, check_claims_iff}
use golang_jwt_ci_test.Jwt.Keys.{Source, with_keys}
use golang_jwt_ci_test.Jwt.Keys.Attempts.{with_keys_iff}
use golang_jwt_ci_test.Jwt.Signing.{marshal_payload, keep_payload, sign}
use golang_jwt_ci_test.Jwt.Verification.{
  effective, verify_signatures, Outcome, check_verified, check_signed, check_encoded, finish,
  verify,
}
use golang_jwt_ci_test.Jwt.Verification.Signatures.{AreVerified, verify_signatures_iff}

-- The set that a source gives, at once or with Refresh, and the state that it goes to.
module _ {K : Type 0} where
  abbrev pub Supplied : Option (Source K) → K → Option KeySet → K → Type 0
  Supplied none k set k' = (set ≡ none) × (k' ≡ k)
  Supplied (some source) k set k' =
      (source.get k ≡ (k', ok set))
      ⊎ ((k1 : K) × (other : Option KeySet) × (refresh : K → K × Result (Option KeySet))
          × (source.get k ≡ (k1, ok other))
          × (source.refresh ≡ some refresh)
          × (refresh k1 ≡ (k', ok set)))

module _ {K Store : Type 0} (s : Services) (ids : IdStore Store) (keys : Option (Source K))
    (config : VerificationConfig) where
  -- The token that Verify reaches when it accepts, step by step: the signatures are made, the
  -- payload is encoded, some key set verifies the signatures that the configuration asks for, and
  -- the claims of the token are acceptable and fresh.
  pub record Accepted (k : K) (store : Store) (token : Token) (o : Outcome K Store) : Type 0 where
    pub signed : Token
    pub encoded_payload : Octets
    pub set : Option KeySet
    pub checked : Token
    pub sign_ok : sign s (record token { authenticated_types = [] }) ≡ (signed, ok tt)
    pub is_signed : signed.signatures ≢ []
    pub is_encoded : marshal_payload s signed.payload ≡ ok encoded_payload
    pub is_supplied : Supplied keys k set o.source
    pub are_verified :
        AreVerified s (effective config) encoded_payload set config.all_signatures signed.signatures
    pub same_signatures : checked.signatures ≡ signed.signatures
    pub same_claims : checked.payload.claims ≡ signed.payload.claims
    pub is_acceptable : IsAcceptable s checked (effective config)
    pub is_fresh : IsFresh ids (effective config) checked.payload.claims store o.store
    pub is_verified : o.token ≡ record checked { verified = true }

  abbrev attempt : Octets → Option KeySet → Token → Token × Result (Unit {0})
  attempt encoded_payload = verify_signatures s (effective config) encoded_payload

  -- Both tokens have the same signatures and claims.
  abbrev SameBody : Token → Token → Type 0
  SameBody a b = (a.signatures ≡ b.signatures) × (a.payload.claims ≡ b.payload.claims)

  attempt-SameBody :
      (encoded_payload : Octets) (set : Option KeySet) (token : Token)
      → SameBody (attempt encoded_payload set token).0 token
  unfolding verify_signatures
  attempt-SameBody encoded_payload set token = (refl, refl)

  after :
      (encoded_payload : Octets) (set : Option KeySet) (token token' : Token)
      (r : Result (Unit {0}))
      → attempt encoded_payload set token ≡ (token', r)
      → SameBody token' token
  after encoded_payload set token token' r h =
      let same = attempt-SameBody encoded_payload set token in
      (sym (ap (λ o. o.0.signatures) h) ∙ same.0, sym (ap (λ o. o.0.payload.claims) h) ∙ same.1)

  verified_with :
      (encoded_payload : Octets) (set : Option KeySet) (token token' : Token)
      → attempt encoded_payload set token ≡ (token', ok tt)
      → AreVerified s (effective config) encoded_payload set config.all_signatures token.signatures
  unfolding effective
  verified_with encoded_payload set token token' h =
      (verify_signatures_iff s (effective config) encoded_payload set token).0 (ap (λ o. o.1) h)

  -- The key set of the successful attempt.
  with_keys-AreVerified :
      (encoded_payload : Octets) (o : Option (Source K)) (k k' : K) (token checked : Token)
      → with_keys (attempt encoded_payload) o k token ≡ (k', checked, ok tt)
      → (set : Option KeySet) × Supplied o k set k'
        × AreVerified s
            (effective config)
            encoded_payload
            set
            config.all_signatures
            token.signatures
        × SameBody checked token
  unfolding with_keys
  with_keys-AreVerified encoded_payload none k k' token checked h =
      let a = ap (λ o. (o.1, o.2)) h in
      (
        none,
        (refl, sym (ap (λ o. o.0) h)),
        verified_with encoded_payload none token checked a,
        after encoded_payload none token checked (ok tt) a,
      )
  with_keys-AreVerified encoded_payload (some source) k k' token checked h =
      elim ((with_keys_iff (attempt encoded_payload) source k k' token checked).0 h) [
        | inl (set, g, a) ↦ (
          set,
          inl g,
          verified_with encoded_payload set token checked a,
          after encoded_payload set token checked (ok tt) a,
        )
        | inr (set, k1, s1, e, refresh, refreshed, g, a, l, r, f, b) ↦
            let first = after encoded_payload set token s1 (err e) a in
            let second = after encoded_payload refreshed s1 checked (ok tt) b in
            (
              refreshed,
              inr (k1, set, refresh, g, r, f),
              subst
                  (AreVerified s (effective config) encoded_payload refreshed config.all_signatures)
                  first.0 (verified_with encoded_payload refreshed s1 checked b),
              (second.0 ∙ first.0, second.1 ∙ first.1),
            )
      ]

  module _ (k : K) (store : Store) (token signed : Token)
      (sign_ok : sign s (record token { authenticated_types = [] }) ≡ (signed, ok tt))
      (is_signed : is_empty signed.signatures ≡ false) where
    claims_step :
        (encoded_payload : Octets) (k' : K) (checked : Token) (r : Store × Result (Unit {0}))
        → marshal_payload s signed.payload ≡ ok encoded_payload
        → with_keys (attempt encoded_payload) keys k (keep_payload s signed encoded_payload)
          ≡ (k', checked, ok tt)
        → check_claims ids s checked (effective config) store ≡ r
        → (finish s ids k' checked r).result ≡ ok tt
        → Accepted k store token (finish s ids k' checked r)
    unfolding keep_payload
    claims_step encoded_payload k' checked (store', err e) m w c h = ground arith
    claims_step encoded_payload k' checked (store', ok u) m w c h =
        let (set, supplied, verified, same) =
          with_keys-AreVerified encoded_payload keys k k' _ checked w in
        let (acceptable, fresh) =
          (check_claims_iff ids s checked (effective config) store store').0 c in
        record {
          signed = signed;
          encoded_payload = encoded_payload;
          set = set;
          checked = checked;
          sign_ok = sign_ok;
          is_signed = λ q. ground (arith, is_signed, ap is_empty q);
          is_encoded = m;
          is_supplied = supplied;
          are_verified = verified;
          same_signatures = same.0;
          same_claims = same.1;
          is_acceptable = acceptable;
          is_fresh = fresh;
          is_verified = refl;
        }

    keys_step :
        (encoded_payload : Octets) (r : K × Token × Result (Unit {0}))
        → marshal_payload s signed.payload ≡ ok encoded_payload
        → with_keys (attempt encoded_payload) keys k (keep_payload s signed encoded_payload) ≡ r
        → (check_verified s ids (effective config) store r).result ≡ ok tt
        → Accepted k store token (check_verified s ids (effective config) store r)
    keys_step encoded_payload (k', checked, err e) m w h = ground arith
    keys_step encoded_payload (k', checked, ok u) m w h =
        claims_step encoded_payload k' checked (check_claims ids s checked (effective config) store)
          m w refl h

    payload_step :
        (m : Result Octets)
        → marshal_payload s signed.payload ≡ m
        → (check_encoded s ids keys (effective config) k store signed m).result ≡ ok tt
        → Accepted k store token (check_encoded s ids keys (effective config) k store signed m)
    payload_step (err e) m h = ground arith
    payload_step (ok encoded_payload) m h = keys_step encoded_payload _ m refl h

  abbrev signed_outcome : K → Store → Token → Bool → Outcome K Store
  signed_outcome k store signed b =
      if b
      then record { source = k; store = store; token = signed; result = err (unsigned ∷ []) }
      else check_encoded s ids keys (effective config) k store signed
          (marshal_payload s signed.payload)

  nonempty_step :
      (k : K) (store : Store) (token signed : Token)
      → sign s (record token { authenticated_types = [] }) ≡ (signed, ok tt)
      → (b : Bool) → is_empty signed.signatures ≡ b
      → (signed_outcome k store signed b).result ≡ ok tt
      → Accepted k store token (signed_outcome k store signed b)
  nonempty_step k store token signed q true e h = ground arith
  nonempty_step k store token signed q false e h = payload_step k store token signed q e _ refl h

  sign_step :
      (k : K) (store : Store) (token : Token) (r : Token × Result (Unit {0}))
      → sign s (record token { authenticated_types = [] }) ≡ r
      → (check_signed s ids keys (effective config) k store r).result ≡ ok tt
      → Accepted k store token (check_signed s ids keys (effective config) k store r)
  sign_step k store token (signed, err e) q h = ground arith
  sign_step k store token (signed, ok u) q h =
      nonempty_step k store token signed q (is_empty signed.signatures) refl h

  -- Verify gives nil only for a token with at least one signature, of which all, or one, as the
  -- configuration asks, are authentic under a key set that the source supplied, with an algorithm
  -- that the configuration accepts, and whose claims are acceptable and not replayed; the token is
  -- then marked as verified.
  pub verify-Accepted :
      (k : K) (store : Store) (token : Token)
      → (verify s ids keys config k store token).result ≡ ok tt
      → Accepted k store token (verify s ids keys config k store token)
  unfolding verify
  verify-Accepted k store token h = sign_step k store token _ refl h
