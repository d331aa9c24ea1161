-- ===== src/Jwa/ConcatKdf/Tests.antt =====
-- The KDF over a toy hash.
use golang_jwt_ci_test.Prelude.{
  ℕ, ◌≡◌, refl, some, [], ◌∷◌, ◌++◌, arith, Octets, take, replicate, length, text,
}
use golang_jwt_ci_test.Jwa.Bytes.{put_uint32}
use golang_jwt_ci_test.Jwa.ConcatKdf.{
  concat_kdf, other_info, length_prefixed, derive_rounds, round_hash,
}
use golang_jwt_ci_test.Jwa.ConcatKdf.Rounds.{concat_kdf-eq_hashes, hashes}
use golang_jwt_ci_test.Jwa.ConcatKdf.Context.{other_info-injective}

-- The low octet of the counter, in 32 octets.
toy_hash : Octets → Octets
toy_hash (a ∷ b ∷ c ∷ d ∷ rest) = replicate 31 0 ++ (d ∷ [])
toy_hash _ = replicate 32 0

toy_sized : (octets : Octets) → length (toy_hash octets) ≡ 32
unfolding toy_hash
toy_sized [] = refl
toy_sized (a ∷ []) = refl
toy_sized (a ∷ b ∷ []) = refl
toy_sized (a ∷ b ∷ c ∷ []) = refl
toy_sized (a ∷ b ∷ c ∷ d ∷ rest) = refl

concat_kdf_runs :
    concat_kdf toy_hash (1 ∷ []) (text "A128KW") [] [] 40
    ≡ some (replicate 31 0 ++ (1 ∷ replicate 8 0))
unfolding concat_kdf derive_rounds round_hash toy_hash other_info length_prefixed put_uint32
concat_kdf_runs = refl

concat_kdf-eq_hashes_example :
    concat_kdf toy_hash (1 ∷ []) (text "A128KW") [] [] 40
    ≡ some (take 40 (hashes toy_hash toy_sized (1 ∷ []) (other_info (text "A128KW") [] [] 40) 2 1))
concat_kdf-eq_hashes_example =
    (concat_kdf-eq_hashes toy_hash toy_sized (1 ∷ []) (text "A128KW") [] [] 40 (omega arith)).0

other_info-injective_example :
    (text "A128KW" ≡ text "A128KW")
    × (◌≡◌ {A = Octets} [] [])
    × (◌≡◌ {A = Octets} [] [])
    × (◌≡◌ {A = ℕ} 16 16)
other_info-injective_example =
    other_info-injective (text "A128KW") [] [] (text "A128KW") [] [] 16 16 (omega arith)
      (omega arith) (omega arith) (omega arith) (omega arith) (omega arith) (omega arith)
      (omega arith) refl
