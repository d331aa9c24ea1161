-- ===== src/Jwa/Gcm.antt =====
-- jwa/aes_gcm.go and jwa/aes_gcm_key_wrap.go: content encryption and key wrap with AES-GCM, which is
-- crypto/cipher and a parameter, and so is the IV that crypto/rand gives.
pub mod Exact
mod Tests
use golang_jwt_ci_test.Prelude.{
  ℕ, ◌+◌, ◌-◌, ◌≡◌, Option, some, Bool, not, ◌&&◌, ◌||◌, [], ◌∷◌, ◌++◌, Octets, length, take, drop,
  eqb, text,
}
use golang_jwt_ci_test.Errors.{
  Result, ok, err, ◌>>=◌, ◌>>◌, guard, or_fail, invalid_initialization_vector, decryption_failed,
}
use golang_jwt_ci_test.Jwa.Material.{
  Material, SymmetricAlgorithm, check_key_size, secret, check_content_encryption_key_size,
}
use golang_jwt_ci_test.Header.Fields.{KeyParameters}

-- cipher.AEAD of newGCM for a key: `seal key iv plaintext aad`. newGCM cannot fail on a key of 16, 24
-- or 32 octets.
pub record Aead : Type 0 where
  pub seal : Octets → Octets → Octets → Octets → Octets
  pub unseal : Octets → Octets → Octets → Octets → Option Octets

-- What crypto/cipher documents, for a nonce of 12 octets: Seal appends a tag of 16 octets, and Open
-- gives a plaintext for what Seal makes from it and for nothing else.
pub record IsAead (c : Aead) : Type 0 where
  pub length-seal :
      (key iv p aad : Octets) → length iv ≡ 12 → length (c.seal key iv p aad) ≡ length p + 16
  pub unseal-seal :
      (key iv p aad : Octets) → length iv ≡ 12 → c.unseal key iv (c.seal key iv p aad) aad ≡ some p
  pub seal-unseal :
      (key iv sealed aad p : Octets)
      → length iv ≡ 12
      → c.unseal key iv sealed aad ≡ some p
      → c.seal key iv p aad ≡ sealed

abbrev pub a128gcm : SymmetricAlgorithm
a128gcm = record { name = text "A128GCM"; key_size = 16 }

abbrev pub a192gcm : SymmetricAlgorithm
a192gcm = record { name = text "A192GCM"; key_size = 24 }

abbrev pub a256gcm : SymmetricAlgorithm
a256gcm = record { name = text "A256GCM"; key_size = 32 }

abbrev pub a128gcmkw : SymmetricAlgorithm
a128gcmkw = record { name = text "A128GCMKW"; key_size = 16 }

abbrev pub a192gcmkw : SymmetricAlgorithm
a192gcmkw = record { name = text "A192GCMKW"; key_size = 24 }

abbrev pub a256gcmkw : SymmetricAlgorithm
a256gcmkw = record { name = text "A256GCMKW"; key_size = 32 }

abbrev pub gcm_iv_size : ℕ
gcm_iv_size = 12

abbrev pub gcm_tag_size : ℕ
gcm_tag_size = 16

-- `sealed[:len(sealed)-gcmTagSize], sealed[len(sealed)-gcmTagSize:]`
abbrev pub divided : Octets → Octets × Octets
divided sealed =
    (take (length sealed - gcm_tag_size) sealed, drop (length sealed - gcm_tag_size) sealed)

module _ (c : Aead) (algorithm : SymmetricAlgorithm) where
  unfoldable pub encrypt : Octets → Octets → Octets → Octets → Result (Octets × Octets)
  encrypt plaintext cek iv aad = do
    check_key_size algorithm cek
    guard (eqb (length iv) gcm_iv_size) (invalid_initialization_vector ∷ [])
    ok (divided (c.seal cek iv plaintext aad))

  unfoldable pub decrypt : Octets → Octets → Octets → Octets → Octets → Result Octets
  decrypt ciphertext cek iv aad tag = do
    check_key_size algorithm cek
    guard (not (not (eqb (length iv) gcm_iv_size) || not (eqb (length tag) gcm_tag_size)))
        (decryption_failed ∷ [])
    or_fail (c.unseal cek iv (ciphertext ++ tag) aad) (decryption_failed ∷ [])

  abbrev pub sealed_parameters : KeyParameters → Octets → Octets → KeyParameters
  sealed_parameters p iv tag = record p { initialization_vector = iv; authentication_tag = tag }

  -- The parameters that the code changes come with the result.
  unfoldable pub wrap_key :
      Result Octets → Octets → Material → KeyParameters → Result (Octets × KeyParameters)
  wrap_key random cek key p = do
    kek ← secret algorithm key
    iv ← random
    let (encrypted_key, tag) = divided (c.seal kek iv cek [])
    ok (encrypted_key, sealed_parameters p iv tag)

  unfoldable pub decrypt_key : Octets → Material → ℕ → KeyParameters → Result Octets
  decrypt_key encrypted_key key key_size p = do
    kek ← secret algorithm key
    guard
        (not (
          not (eqb (length p.initialization_vector) gcm_iv_size)
          || not (eqb (length p.authentication_tag) gcm_tag_size)))
        (decryption_failed ∷ [])
    cek ←
        or_fail (c.unseal kek p.initialization_vector (encrypted_key ++ p.authentication_tag) [])
          (decryption_failed ∷ [])
    check_content_encryption_key_size key_size cek
    ok cek
