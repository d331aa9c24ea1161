-- ===== src/Jwt/Decryption/Opened.antt =====
-- One attempt of Decrypt in encryption.go: the plaintext that it opens and what it reads there.
use golang_jwt_ci_test.Prelude.{
  ◌≡◌, ◌⊎◌, inl, inr, refl, sym, ap, ◌∙◌, true, false, Option, some, arith, Octets, Bool-cases,
}
use golang_jwt_ci_test.Errors.{Result, ok, err, Result-cases}
use golang_jwt_ci_test.Jwa.Algorithm.{algorithm_same}
use golang_jwt_ci_test.Jwk.Key
use golang_jwt_ci_test.Jwk.KeySet.{KeySet}
use golang_jwt_ci_test.Jwk.KeySet
use golang_jwt_ci_test.Header.Fields.{Header}
use golang_jwt_ci_test.Jwe.Message.{Message}
use golang_jwt_ci_test.Jwe.Decryption.{Suite, Slice, contents}
use golang_jwt_ci_test.Jwe.Decryption
use golang_jwt_ci_test.Jwe.Encryption.{Sealer}
use golang_jwt_ci_test.Jwt.Token.{Claims, Token, Services}
use golang_jwt_ci_test.Jwt.Claims.{IdStore, check_claims}
use golang_jwt_ci_test.Jwt.Claims.Exact.{IsAcceptable}
use golang_jwt_ci_test.Jwt.Claims.Replay.{IsFresh, check_claims_iff}
use golang_jwt_ci_test.Jwt.Compact.{Unmarshaled, signed, encrypted, unmarshal}
use golang_jwt_ci_test.Jwt.Verification.{Outcome, verify}
use golang_jwt_ci_test.Jwt.Verification.Accepted.{Accepted, verify-Accepted}
use golang_jwt_ci_test.Jwt.Encryption.{DecryptionConfig, decryption_request}
use golang_jwt_ci_test.Jwt.Decryption.{
  set_source, with_claims, with_inner, is_nested, adopt, adopt_nested, after_claims, read_payload,
  read_plaintext, decrypt_with,
}

module _ {Store : Type 0} (s : Services) (sealer : Sealer) (suite : Suite) (ids : IdStore Store)
    (unmarshal_message : Octets → Result Message) (empty_claims : Claims)
    (config : DecryptionConfig) where
  -- The plaintext is a signed token, which Verify accepts with the same keys.
  pub record NestedToken (octets : Octets) (set : Option KeySet) (checked : Token) (store' : Store)
      : Type 0 where
    pub inner : Token
    pub before : Token
    pub store : Store
    pub is_inner : unmarshal s unmarshal_message octets ≡ ok (signed inner)
    pub is_accepted :
        Accepted s ids
          (some (set_source set))
          config.verification
          tt
          store
          (with_inner before inner)
          (verify s ids
            (some (set_source set))
            config.verification
            tt
            store
            (with_inner before inner))
    pub is_checked :
        verify s ids (some (set_source set)) config.verification tt store (with_inner before inner)
        ≡ record { source = tt; store = store'; token = checked; result = ok tt }

  -- The plaintext is the claims, which are acceptable and not replayed.
  pub record PlainClaims (h : Header) (octets : Octets) (checked : Token) (store' : Store)
      : Type 0 where
    pub claims : Claims
    pub before : Token
    pub store : Store
    pub is_allowed : config.require_nested_token ≡ false
    pub is_read : s.read_claims octets ≡ ok claims
    pub is_acceptable : IsAcceptable s (with_claims before claims h.type_) config.verification
    pub is_fresh : IsFresh ids config.verification claims store store'
    pub is_checked : checked ≡ record (with_claims before claims h.type_) { verified = true }

  abbrev pub IsRead : Header → Option KeySet → Octets → Token → Store → Type 0
  IsRead h set octets checked store' =
      NestedToken octets set checked store' ⊎ PlainClaims h octets checked store'

  abbrev remade : (Store × Token) × Result (Unit {0}) → Outcome (Unit {0}) Store
  remade x = record { source = tt; store = x.0.0; token = x.0.1; result = x.1 }

  adopted :
      (octets : Octets) (set : Option KeySet) (store store' : Store) (token checked : Token)
      (r : Result (Unmarshaled Message))
      → unmarshal s unmarshal_message octets ≡ r
      → adopt s sealer suite ids unmarshal_message empty_claims config set (store, token) r
        ≡ ((store', checked), ok tt)
      → NestedToken octets set checked store'
  adopted octets set store store' token checked (err e) q h = absurd (ground (arith, h))
  adopted octets set store store' token checked (ok (encrypted m)) q h = absurd (ground (arith, h))
  adopted octets set store store' token checked (ok (signed inner)) q h =
      let o =
        verify s ids (some (set_source set)) config.verification tt store
          (with_inner token inner) in
      let result : o.result ≡ ok tt = ap (λ x. x.1) h in
      record {
        inner = inner;
        before = token;
        store = store;
        is_inner = q;
        is_accepted =
            verify-Accepted s ids (some (set_source set)) config.verification tt store
              (with_inner token inner) result;
        is_checked = ap remade h;
      }

  read_claims-PlainClaims :
      (h : Header) (octets : Octets) (store store' : Store) (token checked : Token)
      (r : Result Claims)
      → config.require_nested_token ≡ false
      → s.read_claims octets ≡ r
      → read_payload s sealer suite ids unmarshal_message empty_claims config h (store, token) r
        ≡ ((store', checked), ok tt)
      → PlainClaims h octets checked store'
  read_claims-PlainClaims h octets store store' token checked (err e) n q d =
      absurd (ground (arith, d))
  read_claims-PlainClaims h octets store store' token checked (ok claims) n q d =
      checked_claims _ refl d
    where
      checked_claims :
          (c : Store × Result (Unit {0}))
          → check_claims ids s (with_claims token claims h.type_) config.verification store ≡ c
          → after_claims s sealer suite ids unmarshal_message empty_claims config
              (with_claims token claims h.type_)
              c
            ≡ ((store', checked), ok tt)
          → PlainClaims h octets checked store'
      checked_claims (store1, err e) c d = absurd (ground (arith, d))
      checked_claims (store1, ok u) c d =
          let (acceptable, fresh) =
            (check_claims_iff ids s (with_claims token claims h.type_) config.verification store
                store').0
              (c ∙ ap (λ x. (x.0.0, ok tt)) d) in
          record {
            claims = claims;
            before = token;
            store = store;
            is_allowed = n;
            is_read = q;
            is_acceptable = acceptable;
            is_fresh = fresh;
            is_checked = sym (ap (λ x. x.0.1) d);
          }

  read_plaintext-IsRead :
      (h : Header) (set : Option KeySet) (store store' : Store) (token checked : Token)
      (octets : Octets)
      → read_plaintext s sealer suite ids unmarshal_message empty_claims config h set
          (store, token)
          octets
        ≡ ((store', checked), ok tt)
      → IsRead h set octets checked store'
  unfolding read_plaintext adopt_nested
  read_plaintext-IsRead h set store store' token checked octets d =
      elim (Bool-cases
        (is_nested s sealer suite ids unmarshal_message empty_claims config h.content_type)) [
          | inl n ↦
              inl (adopted octets set store store' token checked _ refl (ground (arith, n, d)))
          | inr n ↦ elim (Bool-cases config.require_nested_token) [
            | inl r ↦ absurd (ground (arith, n, r, d))
            | inr r ↦ inr (
                read_claims-PlainClaims h octets store store' token checked _ r refl
                  (ground (arith, n, r, d)))
          ]
        ]

  -- One attempt of Decrypt with a key set.
  pub decrypt_with-IsRead :
      (m : Message) (h : Header) (set : Option KeySet) (state : Store × Token) (store' : Store)
      (checked : Token)
      → decrypt_with s sealer suite ids unmarshal_message empty_claims config m h set state
        ≡ ((store', checked), ok tt)
      → (key : Key.Key) × (slice : Slice) × (KeySet.key (decryption_request h) set ≡ ok key)
        × (Decryption.decrypt suite m key.material ≡ ok slice)
        × IsRead h set (contents slice) checked store'
  unfolding decrypt_with
  decrypt_with-IsRead m h set (store, token) store' checked d =
      elim (Result-cases (KeySet.key (decryption_request h) set)) [
        | inr (e, q) ↦ absurd (ground (arith, q, d))
        | inl (key, q) ↦ elim (Result-cases (Decryption.decrypt suite m key.material)) [
          | inr (e, o) ↦ absurd (ground (arith, q, o, d))
          | inl (slice, o) ↦ (
            key,
            slice,
            q,
            o,
            read_plaintext-IsRead h set store store' token checked (contents slice)
                (ground (arith, q, o, d)),
          )
        ]
      ]
