-- ===== src/Jwt/Decryption.antt =====
-- Decrypt of encryption.go. What a failed read of the claims leaves in the payload is not modelled: it
-- is the empty payload.
pub mod Opened
pub mod Decrypted
mod Tests
use golang_jwt_ci_test.Prelude.{
  ℕ, ◌≡◌, Bool, true, false, not, ◌&&◌, Option, none, some, List, [], ◌∷◌, Octets, text,
  if◌then◌else◌,
}
use golang_jwt_ci_test.Errors.{
  Result, Error, ok, err, ◌>>=◌, ◌>>◌, guard, or_fail, malformed_token, unsigned, unencrypted,
}
use golang_jwt_ci_test.Jwk.KeySet.{KeySet}
use golang_jwt_ci_test.Jwk.KeySet
use golang_jwt_ci_test.Header.Fields.{Header}
use golang_jwt_ci_test.Jwe.Message.{Message}
use golang_jwt_ci_test.Jwe.Decryption.{Suite, Slice, contents}
use golang_jwt_ci_test.Jwe.Decryption
use golang_jwt_ci_test.Jwe.Encryption.{Sealer}
use golang_jwt_ci_test.Jwt.Token.{Claims, Payload, Token, VerificationConfig, Services}
use golang_jwt_ci_test.Jwt.Claims.{IdStore, check_claims, equal_media_type}
use golang_jwt_ci_test.Jwt.Keys.{Source, with_keys}
use golang_jwt_ci_test.Jwt.Compact.{Unmarshaled, signed, encrypted, unmarshal}
use golang_jwt_ci_test.Jwt.Verification.{Outcome, verify}
use golang_jwt_ci_test.Jwt.Encryption.{
  SealedToken, DecryptionConfig, check_permitted, decryption_request, nested_content_type, encrypt,
  with_token,
}

-- A KeySet as a Source: Get gives the set itself, and there is no Refresh.
abbrev pub set_source : Option KeySet → Source (Unit {0})
set_source set = record { get = λ u. (u, ok set); refresh = none }

abbrev pub with_claims : Token → Claims → Octets → Token
with_claims token claims media_type = record token {
  payload = record { claims = claims; encoded_payload = [] };
  authenticated_types = media_type ∷ [];
}

abbrev pub with_inner : Token → Token → Token
with_inner token inner = record token { payload = inner.payload; signatures = inner.signatures }

-- What Decrypt leaves: the states of the key source and of the IDStore, the token, and the error.
pub record SealedOutcome (K Store : Type 0) : Type 0 where
  pub source : K
  pub store : Store
  pub token : SealedToken
  pub result : Result (Unit {0})

module _ {Store : Type 0} (s : Services) (sealer : Sealer) (suite : Suite) (ids : IdStore Store)
    (unmarshal_message : Octets → Result Message) (empty_claims : Claims)
    (config : DecryptionConfig) where
  unfoldable pub is_nested : Octets → Bool
  is_nested content_type = equal_media_type s content_type nested_content_type

  abbrev pub after_verify : Outcome (Unit {0}) Store → (Store × Token) × Result (Unit {0})
  after_verify o = ((o.store, o.token), o.result)

  abbrev pub adopt :
      Option KeySet
      → Store × Token
      → Result (Unmarshaled Message)
      → (Store × Token) × Result (Unit {0})
  adopt set (store, token) (err e) = ((store, token), err (malformed_token ∷ e))
  adopt set (store, token) (ok (encrypted message)) = ((store, token), err (malformed_token ∷ []))
  adopt set (store, token) (ok (signed inner)) =
      after_verify
        (verify s ids (some (set_source set)) config.verification tt store (with_inner token inner))

  unfoldable pub adopt_nested :
      Octets → Option KeySet → Store × Token → (Store × Token) × Result (Unit {0})
  adopt_nested octets set state = adopt set state (unmarshal s unmarshal_message octets)

  abbrev pub after_claims : Token → Store × Result (Unit {0}) → (Store × Token) × Result (Unit {0})
  after_claims token (store, err e) = ((store, token), err e)
  after_claims token (store, ok u) = ((store, record token { verified = true }), ok tt)

  abbrev pub read_payload :
      Header → Store × Token → Result Claims → (Store × Token) × Result (Unit {0})
  read_payload h (store, token) (err e) = (
    (store, record token { payload = record { claims = empty_claims; encoded_payload = [] } }),
    err (malformed_token ∷ e),
  )
  read_payload h (store, token) (ok claims) =
      let read = with_claims token claims h.type_ in
      after_claims read (check_claims ids s read config.verification store)

  -- The part of decrypt past the plaintext.
  unfoldable pub read_plaintext :
      Header → Option KeySet → Store × Token → Octets → (Store × Token) × Result (Unit {0})
  read_plaintext h set state octets =
      let nested = is_nested h.content_type in
      let adopted = adopt_nested octets set state in
      let read = read_payload h state (s.read_claims octets) in
      if config.require_nested_token && not nested
      then (state, err (unsigned ∷ []))
      else if nested
      then adopted
      else read

  abbrev pub after_open :
      Header → Option KeySet → Store × Token → Result Slice → (Store × Token) × Result (Unit {0})
  after_open h set state (err e) = (state, err e)
  after_open h set state (ok slice) = read_plaintext h set state (contents slice)

  unfoldable pub decrypt_with :
      Message → Header → Option KeySet → Store × Token → (Store × Token) × Result (Unit {0})
  decrypt_with m h set state =
      after_open h set state
        (KeySet.key (decryption_request h) set >>= λ key. Decryption.decrypt suite m key.material)

  -- The checks of Decrypt on the protected header of the message.
  unfoldable pub permitted_header : SealedToken → Result (Message × Header)
  permitted_header t = do
    m ← or_fail t.message (unencrypted ∷ [])
    h ← or_fail m.protected_header (malformed_token ∷ [])
    check_permitted config.key_management h.algorithm
    check_permitted config.content_encryption h.encryption_algorithm
    ok (m, h)

  module _ {K : Type 0} where
    abbrev pub after_keys :
        SealedToken → K × (Store × Token) × Result (Unit {0}) → SealedOutcome K Store
    after_keys t (k, (store, token), r) = record {
      source = k;
      store = store;
      token = with_token s t token;
      result = r;
    }

    abbrev pub stop : K → Store → SealedToken → Error → SealedOutcome K Store
    stop k store t e = record { source = k; store = store; token = t; result = err e }

    abbrev pub open_with :
        Option (Source K)
        → K
        → Store
        → SealedToken
        → Result (Message × Header)
        → SealedOutcome K Store
    open_with keys k store t (err e) = stop k store t e
    open_with keys k store t (ok (m, h)) =
        after_keys t (with_keys (decrypt_with m h) keys k (store, t.token))

    abbrev pub after_encrypt :
        Option (Source K) → K → Store → SealedToken × Result (Unit {0}) → SealedOutcome K Store
    after_encrypt keys k store (t, err e) = stop k store t e
    after_encrypt keys k store (t, ok u) = open_with keys k store t (permitted_header t)

    unfoldable pub decrypt : Option (Source K) → K → Store → SealedToken → SealedOutcome K Store
    decrypt keys k store t =
        after_encrypt keys k store
          (encrypt s sealer (record t { token = record t.token { authenticated_types = [] } }))
