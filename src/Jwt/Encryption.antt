-- ===== src/Jwt/Encryption.antt =====
-- encryption.go: tokens that are encrypted, and the configuration of Decrypt. The parts of Token for encryption stand beside
-- the Token of the other modules.
use golang_jwt_ci_test.Prelude.{
  Bool, true, false, ◌&&◌, Option, none, some, List, [], ◌∷◌, ◌++◌, Octets, text, nat_same,
  list_same, contains, if◌then◌else◌, is_empty,
}
use golang_jwt_ci_test.Prelude.Dots.{dot}
use golang_jwt_ci_test.Errors.{
  Result, ok, err, ◌>>=◌, guard, or_fail, malformed_token, forbidden_key_management,
  multiple_signatures,
}
use golang_jwt_ci_test.Jwa.Algorithm.{
  Algorithm, algorithm_same, dir, ecdh_es, rsa_oaep, rsa_oaep256, a128kw, a192kw, a256kw, a128gcmkw,
  a192gcmkw, a256gcmkw, ecdh_es_a128kw, ecdh_es_a192kw, ecdh_es_a256kw, pbes2_hs256_a128kw,
  pbes2_hs384_a192kw, pbes2_hs512_a256kw, a128cbc_hs256, a192cbc_hs384, a256cbc_hs512, a128gcm,
  a192gcm, a256gcm,
}
use golang_jwt_ci_test.Jwk.Key
use golang_jwt_ci_test.Jwk.KeySet.{Request}
use golang_jwt_ci_test.Header.Fields.{Header}
use golang_jwt_ci_test.Header.Codec
use golang_jwt_ci_test.Header.RoundTrip.{empty}
use golang_jwt_ci_test.Jwe.Message.{Message}
use golang_jwt_ci_test.Jwe.Encryption.{Sealer}
use golang_jwt_ci_test.Jwe.Encryption
use golang_jwt_ci_test.Jwe.Compact
use golang_jwt_ci_test.Jws.{Signature, signature_text}
use golang_jwt_ci_test.Jwt.Token.{
  Payload, Token, VerificationConfig, Services, new_verification_config, apply_options,
}
use golang_jwt_ci_test.Jwt.Signing.{signing_input, marshal_payload, sign, material_of}

-- The literal of NestedContentType.
abbrev pub nested_content_type : Octets
nested_content_type = text "JWT"

-- encrypting; the options change the protected header.
pub record Encrypting : Type 0 where
  pub algorithm : Algorithm
  pub encryption : Algorithm
  pub key : Option Key.Key
  pub options : List (Header → Header)

pub record SealedToken : Type 0 where
  pub token : Token
  pub message : Option Message
  pub pending_encryption : Option Encrypting

pub record DecryptionConfig : Type 0 where
  pub verification : VerificationConfig
  pub key_management : List Algorithm
  pub content_encryption : List Algorithm
  pub require_nested_token : Bool

abbrev pub default_key_management_algorithms : List Algorithm
default_key_management_algorithms =
    dir ∷ rsa_oaep ∷ rsa_oaep256 ∷ a128kw ∷ a192kw ∷ a256kw ∷ a128gcmkw ∷ a192gcmkw ∷ a256gcmkw
    ∷ ecdh_es ∷ ecdh_es_a128kw ∷ ecdh_es_a192kw ∷ ecdh_es_a256kw ∷ pbes2_hs256_a128kw
    ∷ pbes2_hs384_a192kw ∷ pbes2_hs512_a256kw ∷ []

abbrev pub default_content_encryption_algorithms : List Algorithm
default_content_encryption_algorithms =
    a128cbc_hs256 ∷ a192cbc_hs384 ∷ a256cbc_hs512 ∷ a128gcm ∷ a192gcm ∷ a256gcm ∷ []

unfoldable pub apply_decryption_options :
    List (DecryptionConfig → DecryptionConfig) → DecryptionConfig → DecryptionConfig
apply_decryption_options [] config = config
apply_decryption_options (option ∷ rest) config = apply_decryption_options rest (option config)

unfoldable pub new_decryption_config : List (DecryptionConfig → DecryptionConfig) → DecryptionConfig
new_decryption_config options = apply_decryption_options options (record {
  verification = new_verification_config [];
  key_management = default_key_management_algorithms;
  content_encryption = default_content_encryption_algorithms;
  require_nested_token = false;
})

unfoldable pub with_key_management_algorithms : List Algorithm → DecryptionConfig → DecryptionConfig
with_key_management_algorithms algorithms config = record config { key_management = algorithms }

unfoldable pub with_content_encryption_algorithms :
    List Algorithm → DecryptionConfig → DecryptionConfig
with_content_encryption_algorithms algorithms config = record config {
  content_encryption = algorithms;
}

unfoldable pub with_verification :
    List (VerificationConfig → VerificationConfig) → DecryptionConfig → DecryptionConfig
with_verification options config = record config {
  verification = apply_options options config.verification;
}

unfoldable pub with_required_nested_token : DecryptionConfig → DecryptionConfig
with_required_nested_token config = record config { require_nested_token = true }

unfoldable pub check_permitted : List Algorithm → Option Algorithm → Result (Unit {0})
check_permitted permitted none = err (malformed_token ∷ [])
check_permitted permitted (some a) = guard (contains permitted a) (forbidden_key_management ∷ [])

-- The ECDHESAlgorithm type is ECDH-ES alone and with a key wrap.
unfoldable pub key_operation : Option Algorithm → Octets
key_operation (some dir) = Key.decrypt
key_operation (some ecdh_es) = Key.derive_key
key_operation (some ecdh_es_a128kw) = Key.derive_key
key_operation (some ecdh_es_a192kw) = Key.derive_key
key_operation (some ecdh_es_a256kw) = Key.derive_key
key_operation _ = Key.unwrap_key

-- The request of decrypt for a key.
unfoldable pub decryption_request : Header → Request
decryption_request protected_header = record {
  public_key_use = Key.encryption;
  operations = key_operation protected_header.algorithm ∷ [];
  algorithm = protected_header.algorithm;
  id = protected_header.key_id;
}

-- &jwe.Message{}
abbrev pub new_message : Message
new_message = record {
  protected_header = none;
  shared_header = none;
  recipients = [];
  initialization_vector = [];
  ciphertext = [];
  authentication_tag = [];
  additional_authenticated_data = none;
}

unfoldable pub apply_header_options : List (Header → Header) → Header → Header
apply_header_options [] h = h
apply_header_options (option ∷ rest) h = apply_header_options rest (option h)

module _ (s : Services) where
  -- The part of plaintext for a token with a signature, past sign.
  unfoldable pub nested_plaintext : Payload → List (Option Signature) → Result Octets
  nested_plaintext payload (some signature ∷ []) = do
    -- Go panics on a nil protected header; here it is an error.
    h ← or_fail signature.protected_header (malformed_token ∷ [])
    encoded_protected_header ← Codec.marshal s.header_text h
    encoded_payload ← marshal_payload s payload
    ok (signing_input encoded_protected_header encoded_payload ++ dot ∷ signature_text signature)
  -- Go panics on a nil signature.
  nested_plaintext payload (none ∷ []) = err (malformed_token ∷ [])
  nested_plaintext payload _ = err (multiple_signatures ∷ [])

  abbrev pub after_sign : Header → Token × Result (Unit {0}) → Token × Result (Octets × Header)
  after_sign h (token, err e) = (token, err e)
  after_sign h (token, ok u) = (
    token,
    nested_plaintext token.payload token.signatures >>= λ octets.
        ok (octets, record h { content_type = nested_content_type }),
  )

  -- plaintext, with the token after it and the header that it changes.
  unfoldable pub plaintext : Token → Header → Token × Result (Octets × Header)
  plaintext token h =
      if is_empty token.pending && is_empty token.signatures
      then (token, s.write_claims token.payload.claims >>= λ octets. ok (octets, h))
      else after_sign h (sign s token)

  abbrev pub with_token : SealedToken → Token → SealedToken
  with_token t token = record t { token = token }

  module _ (sealer : Sealer) where
    abbrev pub after_plaintext :
        SealedToken
        → Encrypting
        → Token × Result (Octets × Header)
        → SealedToken × Result (Unit {0})
    after_plaintext t pending (token, err e) = (with_token t token, err e)
    after_plaintext t pending (token, ok (octets, h)) =
        elim (Encryption.encrypt sealer (record new_message { protected_header = some h }) octets
          (material_of s pending.key)) [
            | err e ↦ (with_token t token, err e)
            | ok message ↦
                (record { token = token; message = some message; pending_encryption = none }, ok tt)
          ]

    -- The literal of the protected header, with the options.
    unfoldable pub pending_header : Encrypting → Header
    pending_header pending = apply_header_options pending.options (record empty {
      type_ = text "JWT";
      algorithm = some pending.algorithm;
      encryption_algorithm = some pending.encryption;
    })

    unfoldable pub encrypt : SealedToken → SealedToken × Result (Unit {0})
    encrypt t = elim t.pending_encryption [
      | none ↦ (t, ok tt)
      | some pending ↦ after_plaintext t pending (plaintext t.token (pending_header pending))
    ]

    abbrev marshal_message : SealedToken × Result (Unit {0}) → SealedToken × Result Octets
    marshal_message (t, err e) = (t, err e)
    marshal_message (t, ok u) =
        -- Go panics on a nil message; Marshal calls this only where there is one or one is pending.
        (t, or_fail t.message (malformed_token ∷ []) >>= Compact.marshal s.header_text)

    unfoldable pub marshal_encrypted : SealedToken → SealedToken × Result Octets
    marshal_encrypted t = marshal_message (encrypt t)
