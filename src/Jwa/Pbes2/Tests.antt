-- ===== src/Jwa/Pbes2/Tests.antt =====
-- A key wrapped under a password, over a toy cipher that leaves blocks as they are.
use golang_jwt_ci_test.Prelude.{◌≡◌, refl, arith, replicate, Octets}
use golang_jwt_ci_test.Errors.{ok}
use golang_jwt_ci_test.Base64Url.{IsOctets}
use golang_jwt_ci_test.Jwa.Bytes.{uint64, put_uint64}
use golang_jwt_ci_test.Jwa.Material.{octets, secret, secret_octets}
use golang_jwt_ci_test.Jwa.KeyWrap.{BlockCipher, IsCipher, wrap}
use golang_jwt_ci_test.Jwa.KeyWrap
use golang_jwt_ci_test.Header.Fields.{KeyParameters, key_parameters}
use golang_jwt_ci_test.Header.RoundTrip.{empty}
use golang_jwt_ci_test.Jwa.Pbes2.{
  Derivation, pbes2_hs256_a128kw, wrap_key, decrypt_key, derive, check_password, salted,
}
use golang_jwt_ci_test.Jwa.Pbes2.RoundTrip.{decrypt_key-wrap_key}

abbrev same : BlockCipher
same = record { encrypt = λ key block. block; decrypt = λ key block. block }

same-IsCipher : IsCipher same
same-IsCipher = record {
  encrypt-Sized = λ key block h. h;
  decrypt-Sized = λ key block h. h;
  decrypt-encrypt = λ key block h. refl;
  encrypt-decrypt = λ key block h. refl;
}

abbrev toy : Derivation
toy = λ hash password salt count size. ok (replicate size 7)

abbrev password : Octets
password = replicate 16 9

abbrev cek : Octets
cek = replicate 16 1

abbrev wrapped : Octets
wrapped = wrap same (replicate 16 7) cek

abbrev blank : KeyParameters
blank = key_parameters empty

abbrev with_salt : KeyParameters
with_salt = salted toy pbes2_hs256_a128kw blank (replicate 16 5)

wrap_ok :
    wrap_key toy pbes2_hs256_a128kw same (ok (replicate 16 5)) cek (octets password) blank
    ≡ ok (wrapped, with_salt)
unfolding wrap_key derive check_password KeyWrap.wrap_key secret secret_octets wrap
wrap_ok = refl

wrapped-IsOctets : IsOctets wrapped
unfolding wrap uint64 put_uint64
wrapped-IsOctets = omega arith

decrypt_key-wrap_key_example :
    decrypt_key toy pbes2_hs256_a128kw same wrapped (octets password) 16 with_salt ≡ ok cek
decrypt_key-wrap_key_example =
    decrypt_key-wrap_key toy pbes2_hs256_a128kw same same-IsCipher (ok (replicate 16 5)) cek wrapped
      (octets password) 16 blank with_salt (omega arith) wrapped-IsOctets refl wrap_ok
