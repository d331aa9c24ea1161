-- ===== src/Jwa/Direct.antt =====
-- jwa/direct.go: the shared key as the content encryption key. Content encryption enters by its KeySize.
use golang_jwt_ci_test.Prelude.{ℕ, [], ◌∷◌, Octets, length, eqb, is_empty}
use golang_jwt_ci_test.Errors.{Result, ok, ◌>>=◌, ◌>>◌, guard, invalid_key_size, decryption_failed}
use golang_jwt_ci_test.Jwa.Material.{Material, secret_octets}

unfoldable pub shared_key : Material → ℕ → Result Octets
shared_key key key_size = do
  cek ← secret_octets key
  guard (eqb (length cek) key_size) (invalid_key_size ∷ [])
  ok cek

unfoldable pub encrypt_key : Material → ℕ → Result (Octets × Octets)
encrypt_key key key_size = do cek ← shared_key key key_size; ok (cek, [])

unfoldable pub decrypt_key : Octets → Material → ℕ → Result Octets
decrypt_key encrypted_key key key_size = do
  cek ← shared_key key key_size
  guard (is_empty encrypted_key) (decryption_failed ∷ [])
  ok cek
