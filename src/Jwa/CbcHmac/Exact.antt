-- ===== src/Jwa/CbcHmac/Exact.antt =====
-- Decrypt of jwa/aes_cbc_hmac_sha_2.go against Encrypt, and its one error.
use golang_jwt_ci_test.Prelude.{
  ◌-◌, ◌%◌, ◌≤◌, ◌≡◌, refl, ap, sym, subst, ◌∙◌, ◌↔◌, inl, inr, some, [], ◌∷◌, arith, Octets,
  length, replicate, nat_same, list_same, list_eqb_iff, length-append, length-replicate,
}
use golang_jwt_ci_test.Errors.{ok, err, Error, Result-cases, decryption_failed}
use golang_jwt_ci_test.Jwa.CbcHmac.{
  Primitives, IsCbc, AesCbcHmacSha2, key_size, keys, pad, unpad, tag, encrypt, decrypt,
}
use golang_jwt_ci_test.Jwa.CbcHmac.Padding.{unpad_iff-pad}

length-pad : (x : Octets) → (length (pad x) % 16 ≡ 0) × (16 ≤ length (pad x))
unfolding pad
length-pad x =
    let v = 16 - length x % 16 in
    (
      omega (arith, length-append x (replicate v v), length-replicate v v),
      omega (arith, length-append x (replicate v v), length-replicate v v),
    )

module _ (c : Primitives) (algorithm : AesCbcHmacSha2) where
  decrypt-eq_ok :
      (ct cek iv aad received p : Octets)
      → decrypt c algorithm ct cek iv aad received ≡ ok p
      → (halves : Octets × Octets) × (keys algorithm cek ≡ ok halves)
        × (length iv ≡ 16)
        × (length ct % 16 ≡ 0)
        × (received ≡ tag c algorithm halves.0 iv ct aad)
        × (unpad (c.cbc_decrypt halves.1 iv ct) ≡ some p)
  unfolding decrypt
  decrypt-eq_ok ct cek iv aad received p h = elim (Result-cases (keys algorithm cek)) [
    | inr (x, failed) ↦ cc (rw failed at h)
    | inl (halves, found) ↦
        let h' = rw found at h in
        let tags = list_eqb_iff received (tag c algorithm halves.0 iv ct aad) in
        (
          halves,
          found,
          ground (arith, tags),
          ground (arith, tags),
          ground (arith, tags),
          ground (arith, tags),
        )
  ]

  encrypt-eq_ok :
      (ct cek iv aad received p : Octets)
      → encrypt c algorithm p cek iv aad ≡ ok (ct, received)
      → (halves : Octets × Octets) × (keys algorithm cek ≡ ok halves)
        × (length iv ≡ 16)
        × (c.cbc_encrypt halves.1 iv (pad p) ≡ ct)
        × (received ≡ tag c algorithm halves.0 iv ct aad)
  unfolding encrypt
  encrypt-eq_ok ct cek iv aad received p h = elim (Result-cases (keys algorithm cek)) [
    | inr (x, failed) ↦ cc (rw failed at h)
    | inl (halves, found) ↦
        let h' = rw found at h in (halves, found, ground arith, ground arith, ground arith)
  ]

  -- With a CEK of the right length, Decrypt gives ErrDecryptionFailed and no other error, for every
  -- IV, ciphertext, additional data and tag: a recipient does not show which check failed.
  pub decrypt_one_error :
      (ct cek iv aad received : Octets) {e : Error}
      → length cek ≡ key_size algorithm
      → decrypt c algorithm ct cek iv aad received ≡ err e
      → e ≡ decryption_failed ∷ []
  unfolding decrypt keys
  decrypt_one_error ct cek iv aad received sized h = ground arith

  -- Decrypt returns a plaintext if and only if Encrypt makes that ciphertext and that tag from it,
  -- under the same CEK, IV and additional data, given that CBC is inverse in its two directions.
  -- So a round trip gives the plaintext back, and no ciphertext or tag but Encrypt's is accepted.
  pub decrypt_iff-encrypt :
      (laws : IsCbc c) (ct cek iv aad received p : Octets)
      → (decrypt c algorithm ct cek iv aad received ≡ ok p)
        ↔ (encrypt c algorithm p cek iv aad ≡ ok (ct, received))
  unfolding decrypt encrypt
  decrypt_iff-encrypt laws ct cek iv aad received p = (
    λ h.
        let (halves, found, vector, whole, tagged, opened) =
          decrypt-eq_ok ct cek iv aad received p h in
        let padded = (unpad_iff-pad _ p).0 opened in
        let again : c.cbc_encrypt halves.1 iv (pad p) ≡ ct =
          rw padded (laws.cbc_encrypt-cbc_decrypt halves.1 iv ct whole) in
        rw (found, again) (ground arith),
    λ h.
        let (halves, found, vector, made, tagged) = encrypt-eq_ok ct cek iv aad received p h in
        let shape = length-pad p in
        let size : length ct ≡ length (pad p) =
          ap length (sym made) ∙ laws.length-cbc_encrypt halves.1 iv (pad p) in
        let opened : c.cbc_decrypt halves.1 iv ct ≡ pad p =
          subst (λ t. c.cbc_decrypt halves.1 iv t ≡ pad p) made
            (laws.cbc_decrypt-cbc_encrypt halves.1 iv (pad p) shape.0) in
        let unpadded = (unpad_iff-pad (pad p) p).1 refl in
        let tags = list_eqb_iff received (tag c algorithm halves.0 iv ct aad) in
        rw (found, opened) (ground (arith, tags, unpadded)),
  )
