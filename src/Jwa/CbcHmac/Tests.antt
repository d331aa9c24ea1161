-- ===== src/Jwa/CbcHmac/Tests.antt =====
-- AES-CBC with HMAC over toy primitives: a mode that changes nothing and a padded "sum".
use golang_jwt_ci_test.Prelude.{◌≡◌, refl, none, [], ◌∷◌, ◌++◌, Octets, take, replicate}
use golang_jwt_ci_test.Errors.{ok, err, decryption_failed}
use golang_jwt_ci_test.Jwa.CbcHmac.{
  Primitives, IsCbc, a128cbc_hs256, keys, pad, unpad, padding_agrees, tag, encrypt, decrypt,
}
use golang_jwt_ci_test.Jwa.CbcHmac.Exact.{decrypt_iff-encrypt}

abbrev toy : Primitives
toy = record {
  cbc_encrypt = λ key iv blocks. blocks;
  cbc_decrypt = λ key iv blocks. blocks;
  mac = λ size key octets. take size (octets ++ (key ++ replicate size 1));
}

toy-IsCbc : IsCbc toy
toy-IsCbc = record {
  length-cbc_encrypt = λ k iv p. refl;
  length-cbc_decrypt = λ k iv p. refl;
  cbc_decrypt-cbc_encrypt = λ k iv p h. refl;
  cbc_encrypt-cbc_decrypt = λ k iv p h. refl;
}

abbrev cek : Octets
cek = replicate 32 9

abbrev iv : Octets
iv = replicate 16 3

abbrev plaintext : Octets
plaintext = 104 ∷ 105 ∷ []

abbrev ciphertext : Octets
ciphertext = 104 ∷ 105 ∷ replicate 14 14

unpad_zero : unpad (replicate 16 0) ≡ none
unfolding unpad padding_agrees
unpad_zero = refl

encrypt_runs : encrypt toy a128cbc_hs256 plaintext cek iv [] ≡ ok (ciphertext, iv)
unfolding encrypt keys pad tag
encrypt_runs = refl

decrypt_fails : decrypt toy a128cbc_hs256 ciphertext cek iv [] cek ≡ err (decryption_failed ∷ [])
unfolding decrypt keys tag
decrypt_fails = refl

decrypt_iff-encrypt_example : decrypt toy a128cbc_hs256 ciphertext cek iv [] iv ≡ ok plaintext
decrypt_iff-encrypt_example =
    (decrypt_iff-encrypt toy a128cbc_hs256 toy-IsCbc ciphertext cek iv [] iv plaintext).1
      encrypt_runs
