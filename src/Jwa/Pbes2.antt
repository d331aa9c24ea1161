-- ===== src/Jwa/Pbes2.antt =====
-- jwa/pbes2.go: a key wrap under a key that is derived from a password. PBKDF2 is crypto/pbkdf2 and a
-- parameter, and so is the salt that crypto/rand gives.
pub mod RoundTrip
mod Tests
use golang_jwt_ci_test.Prelude.{
  ℕ, ◌≡◌, Bool, true, false, not, ◌&&◌, ◌||◌, List, [], ◌∷◌, ◌++◌, Octets, length, ltb, text,
}
use golang_jwt_ci_test.Prelude.Int.{ℤ, pos, ltb_ℤ}
use golang_jwt_ci_test.Errors.{
  Result, ok, err, ◌>>=◌, ◌>>◌, guard, invalid_key_size, insufficient_iteration_count,
  excessive_iteration_count, weak_password,
}
use golang_jwt_ci_test.Jwa.Material.{Material, octets, SymmetricAlgorithm, secret_octets}
use golang_jwt_ci_test.Jwa.KeyWrap.{BlockCipher, a128kw, a192kw, a256kw}
use golang_jwt_ci_test.Jwa.KeyWrap
use golang_jwt_ci_test.Header.Fields.{KeyParameters}

-- crypto.SHA256, SHA384 and SHA512
pub data Hash : Type 0 where
  sha256 sha384 sha512 : Hash

pub record Pbes2 : Type 0 where
  pub name : Octets
  pub hash : Hash
  pub key_wrap : SymmetricAlgorithm
  pub password_minimum : ℕ
  pub password_maximum : ℕ

abbrev pub pbes2_hs256_a128kw : Pbes2
pbes2_hs256_a128kw = record {
  name = text "PBES2-HS256+A128KW";
  hash = sha256;
  key_wrap = a128kw;
  password_minimum = 16;
  password_maximum = 128;
}

abbrev pub pbes2_hs384_a192kw : Pbes2
pbes2_hs384_a192kw = record {
  name = text "PBES2-HS384+A192KW";
  hash = sha384;
  key_wrap = a192kw;
  password_minimum = 24;
  password_maximum = 128;
}

abbrev pub pbes2_hs512_a256kw : Pbes2
pbes2_hs512_a256kw = record {
  name = text "PBES2-HS512+A256KW";
  hash = sha512;
  key_wrap = a256kw;
  password_minimum = 32;
  password_maximum = 128;
}

abbrev pub minimum_salt_input_size : ℕ
minimum_salt_input_size = 8

abbrev pub default_count : ℤ
default_count = pos 600000

abbrev pub minimum_count : ℤ
minimum_count = pos 1000

abbrev pub maximum_count : ℤ
maximum_count = pos 10000000

-- pbkdf2.Key: hash, password, salt, iterations, size.
abbrev pub Derivation : Type 0
Derivation = Hash → Octets → Octets → ℤ → ℕ → Result Octets

module _ (pbkdf2 : Derivation) (algorithm : Pbes2) where
  unfoldable pub derive : Material → KeyParameters → Result Octets
  derive key p = do
    password ← secret_octets key
    guard (not (ltb (length p.pbes2_salt_input) minimum_salt_input_size)) (invalid_key_size ∷ [])
    guard (not (ltb_ℤ p.pbes2_count minimum_count)) (insufficient_iteration_count ∷ [])
    guard (not (ltb_ℤ maximum_count p.pbes2_count)) (excessive_iteration_count ∷ [])
    pbkdf2 algorithm.hash password (algorithm.name ++ (0 ∷ p.pbes2_salt_input)) p.pbes2_count
        algorithm.key_wrap.key_size

  unfoldable pub check_password : Material → Result (Unit {0})
  check_password key = do
    password ← secret_octets key
    guard
        (not (
          ltb (length password) algorithm.password_minimum
          || ltb algorithm.password_maximum (length password)))
        (weak_password ∷ [])

  abbrev pub salted : KeyParameters → Octets → KeyParameters
  salted p salt_input = record p { pbes2_salt_input = salt_input; pbes2_count = default_count }

  -- The parameters that the code changes come with the result.
  unfoldable pub wrap_key :
      BlockCipher
      → Result Octets
      → Octets
      → Material
      → KeyParameters
      → Result (Octets × KeyParameters)
  wrap_key c random cek key p = do
    check_password key
    salt_input ← random
    kek ← derive key (salted p salt_input)
    encrypted_key ← KeyWrap.wrap_key c algorithm.key_wrap cek (octets kek)
    ok (encrypted_key, salted p salt_input)

  unfoldable pub decrypt_key : BlockCipher → Octets → Material → ℕ → KeyParameters → Result Octets
  decrypt_key c encrypted_key key key_size p = do
    kek ← derive key p
    KeyWrap.decrypt_key c algorithm.key_wrap encrypted_key (octets kek) key_size
