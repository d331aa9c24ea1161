-- ===== src/Jwa/Material.antt =====
-- Key material, which Go passes as `any`, and the checks of it in jwa/algorithm.go.
use golang_jwt_ci_test.Prelude.{ℕ, Octets, length, eqb}
use golang_jwt_ci_test.Errors.{
  Result, ok, err, ◌>>=◌, ◌>>◌, guard, invalid_key_type, invalid_key_size, decryption_failed,
}
use golang_jwt_ci_test.Prelude.{[], ◌∷◌}

-- The Go types of keys that the module tells apart: *ecdsa, *rsa, ed25519, *ecdh on X25519 and on
-- another curve, *mldsa.
pub data KeyKind : Type 0 where
  ecdsa rsa ed25519 x25519 ecdh mldsa : KeyKind

-- A []byte, a public or a private key of some Go type with its value, or another Go value.
pub data Material : Type 0 where
  octets : Octets → Material
  public private : KeyKind → ℕ → Material
  other : ℕ → Material

unfoldable pub secret_octets : Material → Result Octets
secret_octets (octets o) = ok o
secret_octets _ = err (invalid_key_type ∷ [])

-- symmetricAlgorithm
pub record SymmetricAlgorithm : Type 0 where
  pub name : Octets
  pub key_size : ℕ

unfoldable pub check_key_size : SymmetricAlgorithm → Octets → Result (Unit {0})
check_key_size algorithm secret =
    guard (eqb (length secret) algorithm.key_size) (invalid_key_size ∷ [])

unfoldable pub secret : SymmetricAlgorithm → Material → Result Octets
unfolding secret_octets check_key_size
secret algorithm key = do o ← secret_octets key; check_key_size algorithm o; ok o

-- The content encryption algorithm enters by its KeySize.
unfoldable pub check_content_encryption_key_size : ℕ → Octets → Result (Unit {0})
check_content_encryption_key_size key_size cek =
    guard (eqb (length cek) key_size) (decryption_failed ∷ [])
