-- ===== src/Jwa/KeyWrap/Tests.antt =====
-- The key wrap over a toy cipher that swaps the halves of a block.
use golang_jwt_ci_test.Prelude.{
  ◌≡◌, refl, [], ◌∷◌, ◌++◌, arith, Octets, take, drop, replicate, take-append-drop,
}
use golang_jwt_ci_test.Errors.{ok, err, decryption_failed}
use golang_jwt_ci_test.Jwa.Bytes.{uint64, put_uint64, Sized, Sized-take, Sized-drop, Sized-append}
use golang_jwt_ci_test.Jwa.Material.{octets, secret}
use golang_jwt_ci_test.Jwa.KeyWrap.{BlockCipher, IsCipher, a128kw, wrap, wrap_key, decrypt_key}
use golang_jwt_ci_test.Jwa.KeyWrap.Rounds.{take_eight, drop_eight}
use golang_jwt_ci_test.Jwa.KeyWrap.Exact.{decrypt_key_iff-wrap_key}

abbrev swap : Octets → Octets
swap block = drop 8 block ++ take 8 block

abbrev swapping : BlockCipher
swapping = record { encrypt = λ key block. swap block; decrypt = λ key block. swap block }

swap-Sized : (block : Octets) → Sized 16 block → Sized 16 (swap block)
swap-Sized block h = Sized-append _ _ (Sized-drop 8 8 block h) (Sized-take 8 8 block h)

swap-swap : (block : Octets) → Sized 16 block → swap (swap block) ≡ block
swap-swap block h =
    let low = Sized-drop 8 8 block h in
    rw (take_eight (drop 8 block) (take 8 block) low, drop_eight (drop 8 block) (take 8 block) low)
      (take-append-drop 8 block)

swapping-IsCipher : IsCipher swapping
swapping-IsCipher = record {
  encrypt-Sized = λ key. swap-Sized;
  decrypt-Sized = λ key. swap-Sized;
  decrypt-encrypt = λ key. swap-swap;
  encrypt-decrypt = λ key. swap-swap;
}

abbrev kek : Octets
kek = replicate 16 7

abbrev cek : Octets
cek = 1 ∷ 2 ∷ 3 ∷ 4 ∷ 5 ∷ 6 ∷ 7 ∷ 8 ∷ 9 ∷ 10 ∷ 11 ∷ 12 ∷ 13 ∷ 14 ∷ 15 ∷ 16 ∷ []

abbrev wrapped_cek : Octets
wrapped_cek =
    replicate 8 0xa6 ++ (1 ∷ 2 ∷ 3 ∷ 4 ∷ 5 ∷ 6 ∷ 7 ∷ 0 ∷ 9 ∷ 10 ∷ 11 ∷ 12 ∷ 13 ∷ 14 ∷ 15 ∷ 20 ∷ [])

wrap_key_runs : wrap_key swapping a128kw cek (octets kek) ≡ ok wrapped_cek
unfolding wrap_key wrap secret uint64 put_uint64
wrap_key_runs = refl

too_short :
    decrypt_key swapping a128kw (replicate 16 0) (octets kek) 8 ≡ err (decryption_failed ∷ [])
unfolding decrypt_key secret
too_short = refl

decrypt_key_iff-wrap_key_example : decrypt_key swapping a128kw wrapped_cek (octets kek) 16 ≡ ok cek
decrypt_key_iff-wrap_key_example =
    (decrypt_key_iff-wrap_key swapping swapping-IsCipher a128kw (octets kek) wrapped_cek cek 16
        (omega arith) (omega arith)).1
      (wrap_key_runs, refl)
