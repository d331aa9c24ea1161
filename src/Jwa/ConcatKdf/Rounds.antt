-- ===== src/Jwa/ConcatKdf/Rounds.antt =====
-- The loop of jwa/concat_kdf.go ends and gives the key of RFC 7518 section 4.6.
use golang_jwt_ci_test.Prelude.{
  ℕ, zero, suc, ◌+◌, ◌*◌, ◌/◌, ◌%◌, ◌^◌, ◌≤◌, ◌<◌, ◌≡◌, refl, ap, ◌∙◌, some, true, [], ◌++◌, arith,
  Octets, length, take, length-append, length-take, append_assoc, append-nil, ltb,
}
use golang_jwt_ci_test.Jwa.ConcatKdf.{other_info, round_hash, derive_rounds, concat_kdf}

module _ (sha256 : Octets → Octets) (sized : (octets : Octets) → length (sha256 octets) ≡ 32) where
  -- The hashes of k rounds from one on, joined.
  pub hashes : Octets → Octets → ℕ → ℕ → Octets
  hashes secret info zero round = []
  hashes secret info (suc k) round =
      round_hash sha256 round secret info ++ hashes secret info k (round + 1)

  length-round_hash : (round : ℕ) (z info : Octets) → length (round_hash sha256 round z info) ≡ 32
  unfolding round_hash
  length-round_hash round z info = sized _

  length-hashes : (z info : Octets) (k round : ℕ) → length (hashes z info k round) ≡ 32 * k
  unfolding hashes
  length-hashes z info zero round = refl
  length-hashes z info (suc k) round = omega (
    arith,
    length-append (round_hash sha256 round z info) (hashes z info k (round + 1)),
    length-round_hash round z info,
    length-hashes z info k (round + 1),
  )

  -- k rounds are left, and more fuel than that.
  derive_rounds-eq_hashes :
      (k fuel round size : ℕ) (z info derived : Octets)
      → k < fuel
      → size ≤ length derived + 32 * k
      → length derived + 32 * k < size + 32
      → round + k < 2 ^ 32
      → derive_rounds sha256 fuel round z info size derived
        ≡ some (derived ++ hashes z info k round)
  unfolding derive_rounds hashes
  derive_rounds-eq_hashes k zero round size z info derived hf lo hi hr = absurd (omega arith)
  derive_rounds-eq_hashes zero (suc fuel) round size z info derived hf lo hi hr =
      rw append-nil (ground arith)
  derive_rounds-eq_hashes (suc k) (suc fuel) round size z info derived hf lo hi hr =
      let next = round_hash sha256 round z info in
      let longer : length (derived ++ next) ≡ length derived + 32 =
        omega (arith, length-append derived next, length-round_hash round z info) in
      let more : ltb (length derived) size ≡ true = ground arith in
      let no_wrap : (round + 1) % 2 ^ 32 ≡ round + 1 = omega arith in
      rw (more, no_wrap)
        (derive_rounds-eq_hashes k fuel (round + 1) size z info (derived ++ next) (omega arith)
            (omega arith) (omega arith) (omega arith)
          ∙ ap some (append_assoc derived next (hashes z info k (round + 1))))

  -- For a key below 2^32 octets the loop ends, and the derived key is the first `size` octets of the
  -- hashes of the rounds 1, 2, ... up to size / 32 rounded up; it has exactly `size` octets. The
  -- hash is any function to 32 octets.
  pub concat_kdf-eq_hashes :
      (z a u v : Octets) (size : ℕ)
      → size < 2 ^ 32
      → (concat_kdf sha256 z a u v size
          ≡ some (take size (hashes z (other_info a u v size) ((size + 31) / 32) 1)))
        × (length (take size (hashes z (other_info a u v size) ((size + 31) / 32) 1)) ≡ size)
  unfolding concat_kdf
  concat_kdf-eq_hashes z a u v size h = (
    rw (
        derive_rounds-eq_hashes ((size + 31) / 32) (suc size) 1 size z (other_info a u v size) []
          (omega arith) (omega arith) (omega arith) (omega arith)),
    omega (
      arith,
      length-take size (hashes z (other_info a u v size) ((size + 31) / 32) 1),
      length-hashes z (other_info a u v size) ((size + 31) / 32) 1,
    ),
  )
