-- ===== src/Jwa/Pbes2/RoundTrip.antt =====
-- A key that jwa/pbes2.go wraps, unwrapped; and the iteration counts that it accepts.
use golang_jwt_ci_test.Prelude.{
  ℕ, ◌+◌, ◌≤◌, ◌≡◌, ap, sym, ◌∙◌, true, not, [], ◌∷◌, arith, Octets, length, ltb, lt→ltb,
}
use golang_jwt_ci_test.Prelude.Int.{ℤ, pos, pos_part, neg_part, ltb_ℤ, ◌≤ℤ◌}
use golang_jwt_ci_test.Errors.{
  Result, ok, guard, >>=-eq_ok, eq_ok->>=, guard-eq_ok, from_ok, invalid_key_size,
  insufficient_iteration_count, excessive_iteration_count,
}
use golang_jwt_ci_test.Base64Url.{IsOctets}
use golang_jwt_ci_test.Jwa.Material.{Material, octets, secret_octets}
use golang_jwt_ci_test.Jwa.KeyWrap.{BlockCipher, IsCipher}
use golang_jwt_ci_test.Jwa.KeyWrap
use golang_jwt_ci_test.Jwa.KeyWrap.Exact.{decrypt_key_iff-wrap_key}
use golang_jwt_ci_test.Header.Fields.{KeyParameters}
use golang_jwt_ci_test.Jwa.Pbes2.{
  Derivation, Pbes2, derive, check_password, salted, wrap_key, decrypt_key,
}

module _ (pbkdf2 : Derivation) (algorithm : Pbes2) (c : BlockCipher) (laws : IsCipher c) where
  -- DecryptKey, with the parameters that WrapKey leaves and the same password, returns the CEK that
  -- WrapKey wrapped, where the CEK has the length of the content encryption algorithm.
  pub decrypt_key-wrap_key :
      (random : Result Octets) (cek encrypted_key : Octets) (key : Material) (size : ℕ)
      (p p' : KeyParameters)
      → IsOctets cek
      → IsOctets encrypted_key
      → length cek ≡ size
      → wrap_key pbkdf2 algorithm c random cek key p ≡ ok (encrypted_key, p')
      → decrypt_key pbkdf2 algorithm c encrypted_key key size p' ≡ ok cek
  unfolding wrap_key decrypt_key
  decrypt_key-wrap_key random cek e key size p p' octets_cek octets_e sized h =
      let (u, strong, h1) = >>=-eq_ok (check_password pbkdf2 algorithm key) _ h in
      let (salt, drawn, h2) = >>=-eq_ok random _ h1 in
      let (kek, derived, h3) =
        >>=-eq_ok (derive pbkdf2 algorithm key (salted pbkdf2 algorithm p salt)) _ h2 in
      let (e', wrapped, h4) =
        >>=-eq_ok (KeyWrap.wrap_key c algorithm.key_wrap cek (octets kek)) _ h3 in
      let same = from_ok h4 in
      eq_ok->>= (derive pbkdf2 algorithm key p') _
        (ap (derive pbkdf2 algorithm key) (sym (ap (λ x. x.1) same)) ∙ derived)
        ((decrypt_key_iff-wrap_key c laws algorithm.key_wrap (octets kek) e cek size octets_e
            octets_cek).1
          (wrapped ∙ ap (λ x. ok x.0) same, sized))

  at_least : (a b : ℤ) → not (ltb_ℤ a b) ≡ true → b ≤ℤ a
  at_least a b h = ground (arith, h, lt→ltb (pos_part a + neg_part b) (pos_part b + neg_part a))

  -- A key unwraps only with a salt of 8 octets or more and from 1000 to 10000000 iterations.
  pub decrypt_key-bounds :
      (encrypted_key cek : Octets) (key : Material) (size : ℕ) (p : KeyParameters)
      → decrypt_key pbkdf2 algorithm c encrypted_key key size p ≡ ok cek
      → (8 ≤ length p.pbes2_salt_input)
        × (pos 1000 ≤ℤ p.pbes2_count)
        × (p.pbes2_count ≤ℤ pos 10000000)
  unfolding decrypt_key derive
  decrypt_key-bounds e cek key size p h =
      let (kek, derived, h1) = >>=-eq_ok (derive pbkdf2 algorithm key p) _ h in
      let (password, q, d1) = >>=-eq_ok (secret_octets key) _ derived in
      let (u, salt, d2) =
        >>=-eq_ok (guard (not (ltb (length p.pbes2_salt_input) 8)) (invalid_key_size ∷ [])) _ d1 in
      let (v, low, d3) =
        >>=-eq_ok (guard (not (ltb_ℤ p.pbes2_count (pos 1000))) (insufficient_iteration_count ∷ []))
          _ d2 in
      let (w, high, d4) =
        >>=-eq_ok
          (guard (not (ltb_ℤ (pos 10000000) p.pbes2_count)) (excessive_iteration_count ∷ [])) _
          d3 in
      let a = guard-eq_ok _ _ salt in
      let b = guard-eq_ok _ _ low in
      let d = guard-eq_ok _ _ high in
      (
        ground (arith, a, lt→ltb (length p.pbes2_salt_input) 8),
        at_least p.pbes2_count (pos 1000) b,
        at_least (pos 10000000) p.pbes2_count d,
      )
