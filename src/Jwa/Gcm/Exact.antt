-- ===== src/Jwa/Gcm/Exact.antt =====
-- What jwa/aes_gcm.go and jwa/aes_gcm_key_wrap.go open is what they seal.
use golang_jwt_ci_test.Prelude.{
  ℕ, ◌-◌, ◌≡◌, ◌≤◌, ◌↔◌, refl, ap, sym, ◌∙◌, not, ◌||◌, [], ◌∷◌, ◌++◌, arith, Octets, length, eqb,
  eqb_iff, take-append-drop, take-append, drop-append, length-append, length-drop,
}
use golang_jwt_ci_test.Errors.{
  Error, ok, guard, >>=-eq_ok, eq_ok->>=, guard-eq_ok, from_ok, or_fail-eq_ok,
  invalid_initialization_vector, decryption_failed,
}
use golang_jwt_ci_test.Jwa.Material.{
  Material, SymmetricAlgorithm, check_key_size, secret, check_content_encryption_key_size,
}
use golang_jwt_ci_test.Header.Fields.{KeyParameters}
use golang_jwt_ci_test.Jwa.Gcm.{Aead, IsAead, divided, encrypt, decrypt, wrap_key, decrypt_key}

pub divided-append : (ct tag : Octets) → length tag ≡ 16 → divided (ct ++ tag) ≡ (ct, tag)
divided-append ct tag sized =
    let n : length (ct ++ tag) - 16 ≡ length ct = omega (arith, length-append ct tag, sized) in
    rw (n, take-append ct tag, drop-append ct tag) refl

append-divided :
    (sealed ct tag : Octets)
    → divided sealed ≡ (ct, tag)
    → 16 ≤ length sealed
    → (ct ++ tag ≡ sealed) × (length tag ≡ 16)
append-divided sealed ct tag h enough =
    let a = ap (λ x. x.0) h in
    let b = ap (λ x. x.1) h in
    (
      rw (sym a, sym b) (take-append-drop (length sealed - 16) sealed),
      ap length (sym b) ∙ omega (arith, length-drop (length sealed - 16) sealed, enough),
    )

guard-sizes :
    (iv tag : Octets) (e : Error) {u : Unit {0}}
    → guard (not (not (eqb (length iv) 12) || not (eqb (length tag) 16))) e ≡ ok u
    → (length iv ≡ 12) × (length tag ≡ 16)
guard-sizes iv tag e h =
    let shape = guard-eq_ok (not (not (eqb (length iv) 12) || not (eqb (length tag) 16))) e h in
    (ground (arith, shape), ground (arith, shape))

module _ (c : Aead) (laws : IsAead c) (algorithm : SymmetricAlgorithm) where
  -- Decrypt returns a plaintext if and only if Encrypt makes that ciphertext and that tag from it
  -- under the same CEK, IV and additional data, where Open undoes Seal and accepts nothing else.
  pub decrypt_iff-encrypt_gcm :
      (ct cek iv aad tag p : Octets)
      → (decrypt c algorithm ct cek iv aad tag ≡ ok p)
        ↔ (encrypt c algorithm p cek iv aad ≡ ok (ct, tag))
  unfolding decrypt encrypt
  decrypt_iff-encrypt_gcm ct cek iv aad tag p = (
    λ h.
        let (u, keyed, h1) = >>=-eq_ok (check_key_size algorithm cek) _ h in
        let (v, shaped, h2) =
          >>=-eq_ok
            (guard (not (not (eqb (length iv) 12) || not (eqb (length tag) 16)))
              (decryption_failed ∷ []))
            _ h1 in
        let opened = or_fail-eq_ok (c.unseal cek iv (ct ++ tag) aad) (decryption_failed ∷ []) h2 in
        let (vector, whole) = guard-sizes iv tag (decryption_failed ∷ []) shaped in
        let again = laws.seal-unseal cek iv (ct ++ tag) aad p vector opened in
        eq_ok->>= (check_key_size algorithm cek) _ keyed
          (rw (vector, again, divided-append ct tag whole) refl),
    λ h.
        let (u, keyed, h1) = >>=-eq_ok (check_key_size algorithm cek) _ h in
        let (v, shaped, h2) =
          >>=-eq_ok (guard (eqb (length iv) 12) (invalid_initialization_vector ∷ [])) _ h1 in
        let vector : length iv ≡ 12 =
          (eqb_iff (length iv) 12).0
            (guard-eq_ok (eqb (length iv) 12) (invalid_initialization_vector ∷ []) shaped) in
        let (made, whole) =
          append-divided (c.seal cek iv p aad) ct tag (from_ok h2)
            (omega (arith, laws.length-seal cek iv p aad vector)) in
        let opened = laws.unseal-seal cek iv p aad vector in
        eq_ok->>= (check_key_size algorithm cek) _ keyed (rw (vector, whole, made, opened) refl),
  )

  -- DecryptKey returns the CEK that WrapKey wrapped, with the parameters that WrapKey leaves, for an
  -- IV of 12 octets and a CEK of the length of the content encryption algorithm.
  pub decrypt_key-wrap_key_gcm :
      (iv cek encrypted_key : Octets) (key : Material) (size : ℕ) (p p' : KeyParameters)
      → length iv ≡ 12
      → length cek ≡ size
      → wrap_key c algorithm (ok iv) cek key p ≡ ok (encrypted_key, p')
      → decrypt_key c algorithm encrypted_key key size p' ≡ ok cek
  unfolding wrap_key decrypt_key check_content_encryption_key_size
  decrypt_key-wrap_key_gcm iv cek e key size p p' vector sized h =
      let (kek, keyed, h1) = >>=-eq_ok (secret algorithm key) _ h in
      let made = ap (λ x. x.0) (from_ok h1) in
      let kept = ap (λ x. x.1) (from_ok h1) in
      let tagged = ap (λ q. q.authentication_tag) kept in
      let vectored = ap (λ q. q.initialization_vector) kept in
      let (whole, tag_size) =
        append-divided (c.seal kek iv cek []) e p'.authentication_tag (rw (made, tagged) refl)
          (omega (arith, laws.length-seal kek iv cek [] vector)) in
      eq_ok->>= (secret algorithm key) _ keyed (
        rw
          (
            sym vectored,
            vector,
            tag_size,
            whole,
            laws.unseal-seal kek iv cek [] vector,
            sized,
            (eqb_iff size size).1 refl,
          )
          refl)
