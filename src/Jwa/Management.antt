-- ===== src/Jwa/Management.antt =====
-- Which algorithms of jwa implement KeyDecrypter, KeyEncrypter and KeyWrapper, by the methods that
-- they have (jwa/direct.go, aes_key_wrap.go, aes_gcm_key_wrap.go, ecdh_es.go, pbes2.go,
-- rsaes_oaep.go, rsaes_pkcs1_v1_5.go), and the sizes of content encryption (aes_gcm.go).
use golang_jwt_ci_test.Prelude.{ℕ, Bool, not, ◌&&◌, ◌==◌}
use golang_jwt_ci_test.Jwa.Algorithm.{
  Algorithm, algorithm_same, is_verifier, is_content_encrypter, rsa15, dir, a192cbc_hs384,
  a256cbc_hs512, a128gcm, a192gcm, a256gcm,
}

-- Every algorithm that neither signs nor encrypts content has DecryptKey.
unfoldable pub is_key_decrypter : Algorithm → Bool
is_key_decrypter a = not (is_verifier a) && not (is_content_encrypter a)

-- RSA1_5 has no EncryptKey.
unfoldable pub is_key_encrypter : Algorithm → Bool
is_key_encrypter a = is_key_decrypter a && not (a == rsa15)

-- Direct has no WrapKey; ECDH-ES has one that gives an error.
unfoldable pub is_key_wrapper : Algorithm → Bool
is_key_wrapper a = is_key_encrypter a && not (a == dir)

-- IVSize
unfoldable pub iv_size : Algorithm → ℕ
iv_size a128gcm = 12
iv_size a192gcm = 12
iv_size a256gcm = 12
iv_size _ = 16

-- KeySize of content encryption: the size of the hash for AES-CBC with HMAC-SHA-2.
unfoldable pub content_key_size : Algorithm → ℕ
content_key_size a128gcm = 16
content_key_size a192gcm = 24
content_key_size a256gcm = 32
content_key_size a192cbc_hs384 = 48
content_key_size a256cbc_hs512 = 64
content_key_size _ = 32
