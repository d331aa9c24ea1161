-- ===== src/Jwa/CbcHmac.antt =====
-- jwa/aes_cbc_hmac_sha_2.go: AES-CBC with HMAC-SHA-2. The CBC mode of crypto/cipher over crypto/aes
-- and crypto/hmac are parameters. The Boolean conjunctions stand for the 0 and 1 of crypto/subtle;
-- how long the code takes is not modelled.
pub mod Padding
pub mod Exact
mod Tests
use golang_jwt_ci_test.Prelude.{
  ℕ, zero, suc, ◌+◌, ◌-◌, ◌*◌, ◌/◌, ◌%◌, ◌^◌, ◌≡◌, Bool, true, not, ◌&&◌, ◌||◌, Option, none, some,
  List, [], ◌∷◌, ◌++◌, Octets, length, take, drop, replicate, get_or, leb, eqb, ◌==◌, nat_same,
  list_same, text, if◌then◌else◌,
}
use golang_jwt_ci_test.Errors.{
  Result, ok, err, ◌>>=◌, ◌>>◌, guard, or_fail, invalid_key_size, invalid_initialization_vector,
  decryption_failed,
}
use golang_jwt_ci_test.Jwa.Bytes.{put_uint64}

abbrev pub block_size : ℕ
block_size = 16

-- CryptBlocks of cipher.NewCBCEncrypter and cipher.NewCBCDecrypter, as `mode key iv blocks`, and
-- the sum of hmac.New, as `mac hash_size key octets`.
pub record Primitives : Type 0 where
  pub cbc_encrypt : Octets → Octets → Octets → Octets
  pub cbc_decrypt : Octets → Octets → Octets → Octets
  pub mac : ℕ → Octets → Octets → Octets

-- What crypto/cipher documents of the mode: on whole blocks it keeps the length, and the two
-- directions are inverse.
pub record IsCbc (c : Primitives) : Type 0 where
  pub length-cbc_encrypt : (k iv p : Octets) → length (c.cbc_encrypt k iv p) ≡ length p
  pub length-cbc_decrypt : (k iv p : Octets) → length (c.cbc_decrypt k iv p) ≡ length p
  pub cbc_decrypt-cbc_encrypt :
      (k iv p : Octets) → length p % 16 ≡ 0 → c.cbc_decrypt k iv (c.cbc_encrypt k iv p) ≡ p
  pub cbc_encrypt-cbc_decrypt :
      (k iv p : Octets) → length p % 16 ≡ 0 → c.cbc_encrypt k iv (c.cbc_decrypt k iv p) ≡ p

pub record AesCbcHmacSha2 : Type 0 where
  pub name : Octets
  -- algorithm.hash.Size()
  pub hash_size : ℕ

abbrev pub a128cbc_hs256 : AesCbcHmacSha2
a128cbc_hs256 = record { name = text "A128CBC-HS256"; hash_size = 32 }

abbrev pub a192cbc_hs384 : AesCbcHmacSha2
a192cbc_hs384 = record { name = text "A192CBC-HS384"; hash_size = 48 }

abbrev pub a256cbc_hs512 : AesCbcHmacSha2
a256cbc_hs512 = record { name = text "A256CBC-HS512"; hash_size = 64 }

abbrev pub key_size : AesCbcHmacSha2 → ℕ
key_size algorithm = algorithm.hash_size

abbrev pub half_size : AesCbcHmacSha2 → ℕ
half_size algorithm = algorithm.hash_size / 2

-- macKey and encryptionKey
unfoldable pub keys : AesCbcHmacSha2 → Octets → Result (Octets × Octets)
keys algorithm cek =
    if eqb (length cek) (key_size algorithm)
    then ok (take (half_size algorithm) cek, drop (half_size algorithm) cek)
    else err (invalid_key_size ∷ [])

unfoldable pub pad : Octets → Octets
pad plaintext =
    let padding = block_size - length plaintext % block_size in
    plaintext ++ replicate padding padding

-- The loop of `unpad` for i from 1 up to a bound: the last `padding` octets hold `padding`.
pub padding_agrees : Octets → ℕ → ℕ → Bool
padding_agrees padded padding zero = true
padding_agrees padded padding (suc i) =
    padding_agrees padded padding i
    && (if leb (suc i) padding then eqb (get_or padded (length padded - suc i) 0) padding else true)

unfoldable pub unpad : Octets → Option Octets
unpad padded =
    if eqb (length padded) 0 || not (eqb (length padded % block_size) 0)
    then none
    else let padding = get_or padded (length padded - 1) 0 in
      if leb 1 padding && leb padding block_size && padding_agrees padded padding block_size
      then some (take (length padded - padding) padded)
      else none

module _ (c : Primitives) (algorithm : AesCbcHmacSha2) where
  unfoldable pub tag : Octets → Octets → Octets → Octets → Octets
  tag mac_key iv ciphertext aad = take (half_size algorithm) (
      c.mac algorithm.hash_size mac_key
        (aad ++ (iv ++ (ciphertext ++ put_uint64 (length aad * 8 % 2 ^ 64)))))

  -- aes.NewCipher cannot fail on the half of a CEK of the right length.
  unfoldable pub encrypt : Octets → Octets → Octets → Octets → Result (Octets × Octets)
  encrypt plaintext cek iv aad = do
    halves ← keys algorithm cek
    guard (eqb (length iv) block_size) (invalid_initialization_vector ∷ [])
    let ciphertext = c.cbc_encrypt halves.1 iv (pad plaintext)
    ok (ciphertext, tag halves.0 iv ciphertext aad)

  unfoldable pub decrypt : Octets → Octets → Octets → Octets → Octets → Result Octets
  decrypt ciphertext cek iv aad received = do
    halves ← keys algorithm cek
    guard
        (not (
          not (eqb (length iv) block_size)
          || eqb (length ciphertext) 0
          || not (eqb (length ciphertext % block_size) 0)))
        (decryption_failed ∷ [])
    guard (received == tag halves.0 iv ciphertext aad) (decryption_failed ∷ [])
    or_fail (unpad (c.cbc_decrypt halves.1 iv ciphertext)) (decryption_failed ∷ [])
