-- ===== src/Jwa/ConcatKdf.antt =====
-- jwa/concat_kdf.go: the Concat KDF of RFC 7518 section 4.6. SHA-256 is crypto/sha256 and a
-- parameter. Numbers of Go's uint32 wrap.
pub mod Rounds
pub mod Context
mod Tests
use golang_jwt_ci_test.Prelude.{
  ℕ, zero, suc, ◌+◌, ◌*◌, ◌%◌, ◌^◌, ◌≡◌, Option, none, some, List, [], ◌∷◌, ◌++◌, Octets, length,
  take, ltb, if◌then◌else◌,
}
use mathlib.Core.Option
use golang_jwt_ci_test.Jwa.Bytes.{put_uint32}

unfoldable pub length_prefixed : Octets → Octets
length_prefixed octets = put_uint32 (length octets % 2 ^ 32) ++ octets

-- algorithmID, partyUInfo, partyVInfo and `uint32(size)*8`
unfoldable pub other_info : Octets → Octets → Octets → ℕ → Octets
other_info algorithm_id party_u party_v size =
    length_prefixed algorithm_id
    ++ (length_prefixed party_u
        ++ (length_prefixed party_v ++ put_uint32 (size % 2 ^ 32 * 8 % 2 ^ 32)))

module _ (sha256 : Octets → Octets) where
  -- The hash of one round: the counter, the shared secret, the other information.
  unfoldable pub round_hash : ℕ → Octets → Octets → Octets
  round_hash round shared_secret info = sha256 (put_uint32 round ++ (shared_secret ++ info))

  -- `for round := uint32(1); len(derived) < size; round++`; `none` means that the fuel ran out.
  unfoldable pub derive_rounds : ℕ → ℕ → Octets → Octets → ℕ → Octets → Option Octets
  derive_rounds zero round shared_secret info size derived = none
  derive_rounds (suc fuel) round shared_secret info size derived =
      let rest =
        derive_rounds fuel ((round + 1) % 2 ^ 32) shared_secret info size
          (derived ++ round_hash round shared_secret info) in
      if ltb (length derived) size then rest else some derived

  -- Fuel for one round more than there are octets.
  unfoldable pub concat_kdf : Octets → Octets → Octets → Octets → ℕ → Option Octets
  concat_kdf shared_secret algorithm_id party_u party_v size = Option.map (take size) (
      derive_rounds (suc size) 1 shared_secret (other_info algorithm_id party_u party_v size) size
        [])
