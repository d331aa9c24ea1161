-- ===== src/Jwt/Decryption/Decrypted.antt =====
-- What Decrypt of encryption.go accepts, and the token that it leaves.
use golang_jwt_ci_test.Prelude.{
  ◌≡◌, inl, inr, refl, sym, ap, ◌∙◌, true, Option, none, some, [], ◌∷◌, arith, Octets, List,
  contains,
}
use golang_jwt_ci_test.Errors.{
  Result, ok, err, or_fail, unencrypted, malformed_token, >>=-eq_ok, from_ok, or_fail-eq_ok,
  guard-eq_ok,
}
use golang_jwt_ci_test.Jwa.Algorithm.{Algorithm, algorithm_same}
use golang_jwt_ci_test.Jwk.Key
use golang_jwt_ci_test.Jwk.KeySet.{KeySet}
use golang_jwt_ci_test.Jwk.KeySet
use golang_jwt_ci_test.Header.Fields.{Header}
use golang_jwt_ci_test.Jwe.Message.{Message}
use golang_jwt_ci_test.Jwe.Decryption.{Suite, Slice, contents}
use golang_jwt_ci_test.Jwe.Decryption
use golang_jwt_ci_test.Jwe.Encryption.{Sealer}
use golang_jwt_ci_test.Jwt.Token.{Claims, Token, Services}
use golang_jwt_ci_test.Jwt.Claims.{IdStore}
use golang_jwt_ci_test.Jwt.Keys.{Source, with_keys}
use golang_jwt_ci_test.Jwt.Keys.Attempts.{with_keys_iff}
use golang_jwt_ci_test.Jwt.Verification.Accepted.{Supplied}
use golang_jwt_ci_test.Jwt.Encryption.{
  SealedToken, DecryptionConfig, check_permitted, decryption_request, encrypt,
}
use golang_jwt_ci_test.Jwt.Decryption.{
  SealedOutcome, decrypt_with, permitted_header, after_keys, open_with, after_encrypt, decrypt,
}
use golang_jwt_ci_test.Jwt.Decryption.Opened.{IsRead, decrypt_with-IsRead}

module _ {Store : Type 0} (s : Services) (sealer : Sealer) (suite : Suite) (ids : IdStore Store)
    (unmarshal_message : Octets → Result Message) (empty_claims : Claims)
    (config : DecryptionConfig) where
  module _ {K : Type 0} (keys : Option (Source K)) where
    abbrev try_set :
        Message → Header → Option KeySet → Store × Token → (Store × Token) × Result (Unit {0})
    try_set = decrypt_with s sealer suite ids unmarshal_message empty_claims config

    -- The key set that the plaintext was read with.
    with_keys-IsRead :
        (m : Message) (h : Header) (o : Option (Source K)) (k k' : K) (state : Store × Token)
        (store' : Store) (checked : Token)
        → with_keys (try_set m h) o k state ≡ (k', (store', checked), ok tt)
        → (set : Option KeySet) × (before : Store × Token) × Supplied o k set k'
          × (try_set m h set before ≡ ((store', checked), ok tt))
    unfolding with_keys
    with_keys-IsRead m h none k k' state store' checked d =
        (none, state, (refl, sym (ap (λ x. x.0) d)), ap (λ x. (x.1, x.2)) d)
    with_keys-IsRead m h (some source) k k' state store' checked d =
        elim ((with_keys_iff (try_set m h) source k k' state (store', checked)).0 d) [
          | inl (set, g, a) ↦ (set, state, inl g, a)
          | inr (set, k1, s1, e, refresh, refreshed, g, a, l, r, f, b) ↦
              (refreshed, s1, inr (k1, set, refresh, g, r, f), b)
        ]

    -- The steps of a call of Decrypt that gives nil.
    pub record Decrypted (k : K) (store : Store) (t : SealedToken) (o : SealedOutcome K Store)
        : Type 0 where
      pub sealed : SealedToken
      pub message : Message
      pub header : Header
      pub management : Algorithm
      pub encryption : Algorithm
      pub set : Option KeySet
      pub key : Key.Key
      pub plaintext : Slice
      pub is_sealed :
          encrypt s sealer (record t { token = record t.token { authenticated_types = [] } })
          ≡ (sealed, ok tt)
      pub is_message : sealed.message ≡ some message
      pub is_header : message.protected_header ≡ some header
      pub is_management : header.algorithm ≡ some management
      pub is_encryption : header.encryption_algorithm ≡ some encryption
      pub management_permitted : contains config.key_management management ≡ true
      pub encryption_permitted : contains config.content_encryption encryption ≡ true
      pub is_supplied : Supplied keys k set o.source
      pub is_key : KeySet.key (decryption_request header) set ≡ ok key
      pub is_plaintext : Decryption.decrypt suite message key.material ≡ ok plaintext
      pub is_read :
          IsRead s sealer suite ids unmarshal_message empty_claims config header set
            (contents plaintext)
            o.token.token
            o.store

    check_permitted-eq_ok :
        (permitted : List Algorithm) (a : Option Algorithm) {u : Unit}
        → check_permitted permitted a ≡ ok u
        → (b : Algorithm) × (a ≡ some b) × (contains permitted b ≡ true)
    unfolding check_permitted
    check_permitted-eq_ok permitted none h = absurd (ground (arith, h))
    check_permitted-eq_ok permitted (some a) h = (a, refl, guard-eq_ok _ _ h)

    attempted :
        (k : K) (store : Store) (t sealed : SealedToken) (m : Message) (h : Header)
        (a e : Algorithm) (w : K × (Store × Token) × Result (Unit {0}))
        → encrypt s sealer (record t { token = record t.token { authenticated_types = [] } })
          ≡ (sealed, ok tt)
        → sealed.message ≡ some m
        → m.protected_header ≡ some h
        → (h.algorithm ≡ some a) × (contains config.key_management a ≡ true)
        → (h.encryption_algorithm ≡ some e) × (contains config.content_encryption e ≡ true)
        → with_keys (try_set m h) keys k (store, sealed.token) ≡ w
        → (after_keys s sealer suite ids unmarshal_message empty_claims config sealed w).result
          ≡ ok tt
        → Decrypted k store t
            (after_keys s sealer suite ids unmarshal_message empty_claims config sealed w)
    attempted k store t sealed m h a e (k', (store', checked), err x) q qm qh pa pe w r =
        absurd (ground (arith, r))
    attempted k store t sealed m h a e (k', (store', checked), ok u) q qm qh pa pe w r =
        let (set, before, supplied, d) =
          with_keys-IsRead m h keys k k' (store, sealed.token) store' checked w in
        let (key, slice, found, opened, read) =
          decrypt_with-IsRead s sealer suite ids unmarshal_message empty_claims config m h set
            before store' checked d in
        record {
          sealed = sealed;
          message = m;
          header = h;
          management = a;
          encryption = e;
          set = set;
          key = key;
          plaintext = slice;
          is_sealed = q;
          is_message = qm;
          is_header = qh;
          is_management = pa.0;
          is_encryption = pe.0;
          management_permitted = pa.1;
          encryption_permitted = pe.1;
          is_supplied = supplied;
          is_key = found;
          is_plaintext = opened;
          is_read = read;
        }

    opened_step :
        (k : K) (store : Store) (t sealed : SealedToken) (r : Result (Message × Header))
        → encrypt s sealer (record t { token = record t.token { authenticated_types = [] } })
          ≡ (sealed, ok tt)
        → permitted_header s sealer suite ids unmarshal_message empty_claims config sealed ≡ r
        → (open_with s sealer suite ids unmarshal_message empty_claims config keys k store sealed
            r).result
          ≡ ok tt
        → Decrypted k store t (
            open_with s sealer suite ids unmarshal_message empty_claims config keys k store sealed
              r)
    unfolding permitted_header
    opened_step k store t sealed (err e) q p r = absurd (ground (arith, r))
    opened_step k store t sealed (ok (m, h)) q p r =
        let (m', qm, p1) = >>=-eq_ok (or_fail sealed.message (unencrypted ∷ [])) _ p in
        let (h', qh, p2) = >>=-eq_ok (or_fail m'.protected_header (malformed_token ∷ [])) _ p1 in
        let (u, pa, p3) = >>=-eq_ok (check_permitted config.key_management h'.algorithm) _ p2 in
        let (v, pe, p4) =
          >>=-eq_ok (check_permitted config.content_encryption h'.encryption_algorithm) _ p3 in
        let (a, qa, ca) = check_permitted-eq_ok config.key_management h'.algorithm pa in
        let (e, qe, ce) =
          check_permitted-eq_ok config.content_encryption h'.encryption_algorithm pe in
        let same_m : m' ≡ m = ap (λ x. x.0) (from_ok p4) in
        let same_h : h' ≡ h = ap (λ x. x.1) (from_ok p4) in
        attempted k store t sealed m h a e _ q (or_fail-eq_ok sealed.message _ qm ∙ ap some same_m)
          (ap (λ x. x.protected_header) (sym same_m)
            ∙ or_fail-eq_ok m'.protected_header _ qh
            ∙ ap some same_h)
          (ap (λ x. x.algorithm) (sym same_h) ∙ qa, ca)
          (ap (λ x. x.encryption_algorithm) (sym same_h) ∙ qe, ce) refl r

    sealed_step :
        (k : K) (store : Store) (t : SealedToken) (x : SealedToken × Result (Unit {0}))
        → encrypt s sealer (record t { token = record t.token { authenticated_types = [] } }) ≡ x
        → (after_encrypt s sealer suite ids unmarshal_message empty_claims config keys k store
            x).result
          ≡ ok tt
        → Decrypted k store t
            (after_encrypt s sealer suite ids unmarshal_message empty_claims config keys k store x)
    sealed_step k store t (sealed, err e) q r = absurd (ground (arith, r))
    sealed_step k store t (sealed, ok u) q r = opened_step k store t sealed _ q refl r

    -- Decrypt gives nil only for a token that is encrypted with two algorithms that the configuration
    -- permits, and that opens under a key of a set that the source supplied, one that suits the algorithm.
    -- What it opens to is a signed token that Verify accepts with that set, or, where the configuration
    -- does not ask for such a token, claims that are acceptable and not replayed; the token is then
    -- marked as verified.
    pub decrypt-Decrypted :
        (k : K) (store : Store) (t : SealedToken)
        → (decrypt s sealer suite ids unmarshal_message empty_claims config keys k store t).result
          ≡ ok tt
        → Decrypted k store t
            (decrypt s sealer suite ids unmarshal_message empty_claims config keys k store t)
    unfolding decrypt
    decrypt-Decrypted k store t r = sealed_step k store t _ refl r
