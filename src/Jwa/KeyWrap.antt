-- ===== src/Jwa/KeyWrap.antt =====
-- jwa/aes_key_wrap.go: AES Key Wrap (RFC 3394). AES itself is crypto/aes and a parameter.
pub mod Rounds
pub mod Registers
pub mod Exact
mod Tests
use Prim.Native.Nat.{bit_xor}
use golang_jwt_ci_test.Prelude.{
  ℕ, zero, suc, ◌+◌, ◌-◌, ◌*◌, ◌/◌, ◌%◌, ◌^◌, ◌≡◌, Bool, true, not, ◌&&◌, ◌||◌, List, [], ◌∷◌, ◌++◌,
  Octets, length, take, drop, ltb, leb, eqb, ◌==◌, nat_same, list_same, text, if◌then◌else◌,
}
use golang_jwt_ci_test.Errors.{
  Result, ok, err, ◌>>=◌, ◌>>◌, guard, invalid_key_size, decryption_failed,
}
use golang_jwt_ci_test.Jwa.Bytes.{uint64, put_uint64, Sized}
use golang_jwt_ci_test.Jwa.Material.{
  Material, SymmetricAlgorithm, secret, check_content_encryption_key_size,
}

-- cipher.Block for a key, as crypto/aes gives it: `encrypt key block`.
pub record BlockCipher : Type 0 where
  pub encrypt : Octets → Octets → Octets
  pub decrypt : Octets → Octets → Octets

-- What crypto/aes documents: on blocks of 16 octets the two are inverse.
pub record IsCipher (c : BlockCipher) : Type 0 where
  pub encrypt-Sized : (key block : Octets) → Sized 16 block → Sized 16 (c.encrypt key block)
  pub decrypt-Sized : (key block : Octets) → Sized 16 block → Sized 16 (c.decrypt key block)
  pub decrypt-encrypt :
      (key block : Octets) → Sized 16 block → c.decrypt key (c.encrypt key block) ≡ block
  pub encrypt-decrypt :
      (key block : Octets) → Sized 16 block → c.encrypt key (c.decrypt key block) ≡ block

-- A128KW, A192KW and A256KW
abbrev pub a128kw : SymmetricAlgorithm
a128kw = record { name = text "A128KW"; key_size = 16 }

abbrev pub a192kw : SymmetricAlgorithm
a192kw = record { name = text "A192KW"; key_size = 24 }

abbrev pub a256kw : SymmetricAlgorithm
a256kw = record { name = text "A256KW"; key_size = 32 }

abbrev pub key_wrap_block_size : ℕ
key_wrap_block_size = 8

abbrev pub key_wrap_default_iv : Octets
key_wrap_default_iv = 0xa6 ∷ 0xa6 ∷ 0xa6 ∷ 0xa6 ∷ 0xa6 ∷ 0xa6 ∷ 0xa6 ∷ 0xa6 ∷ []

-- The n registers r[(i-1)*8 : i*8].
unfoldable pub registers : ℕ → Octets → List Octets
registers zero r = []
registers (suc n) r = take key_wrap_block_size r ∷ registers n (drop key_wrap_block_size r)

unfoldable pub joined : List Octets → Octets
joined [] = []
joined (r ∷ rs) = r ++ joined rs

-- `t := uint64(n*j + i)`
abbrev pub counter : ℕ → ℕ → ℕ → ℕ
counter n j i = (n * j + i) % 2 ^ 64

module _ (c : BlockCipher) (key : Octets) where
  -- One turn of the inner loop of `wrap` on `a` and one register.
  pub wrap_step : ℕ → Octets → Octets → Octets × Octets
  wrap_step t a register =
      let buffer = c.encrypt key (a ++ register) in
      (
        put_uint64 (bit_xor (uint64 (take key_wrap_block_size buffer)) t),
        drop key_wrap_block_size buffer,
      )

  -- `for i := 1; i <= n; i++`; the list holds the registers from i on.
  pub wrap_round : ℕ → ℕ → ℕ → Octets → List Octets → Octets × List Octets
  wrap_round n j i a [] = (a, [])
  wrap_round n j i a (r ∷ rs) =
      let (a', r') = wrap_step (counter n j i) a r in
      let (a'', rs') = wrap_round n j (suc i) a' rs in (a'', r' ∷ rs')

  -- `for j := range 6`, up to a number of rounds.
  pub wrap_rounds : ℕ → ℕ → Octets → List Octets → Octets × List Octets
  wrap_rounds n zero a rs = (a, rs)
  wrap_rounds n (suc j) a rs = let (a', rs') = wrap_rounds n j a rs in wrap_round n j 1 a' rs'

  unfoldable pub wrap : Octets → Octets
  unfolding wrap_rounds wrap_round wrap_step registers joined
  wrap plaintext =
      let n = length plaintext / key_wrap_block_size in
      let (a, rs) = wrap_rounds n 6 key_wrap_default_iv (registers n plaintext) in
      a ++ (joined rs ++ drop (n * key_wrap_block_size) plaintext)

  pub unwrap_step : ℕ → Octets → Octets → Octets × Octets
  unwrap_step t a register =
      let buffer = c.decrypt key (put_uint64 (bit_xor (uint64 a) t) ++ register) in
      (take key_wrap_block_size buffer, drop key_wrap_block_size buffer)

  -- `for i := n; i >= 1; i--`
  pub unwrap_round : ℕ → ℕ → ℕ → Octets → List Octets → Octets × List Octets
  unwrap_round n j i a [] = (a, [])
  unwrap_round n j i a (r ∷ rs) =
      let (a', rs') = unwrap_round n j (suc i) a rs in
      let (a'', r') = unwrap_step (counter n j i) a' r in (a'', r' ∷ rs')

  -- `for j := 5; j >= 0; j--`
  pub unwrap_rounds : ℕ → ℕ → Octets → List Octets → Octets × List Octets
  unwrap_rounds n zero a rs = (a, rs)
  unwrap_rounds n (suc j) a rs = let (a', rs') = unwrap_round n j 1 a rs in unwrap_rounds n j a' rs'

  unfoldable pub unwrap : Octets → Octets × Bool
  unfolding unwrap_rounds unwrap_round unwrap_step registers joined
  unwrap ciphertext =
      let n = length ciphertext / key_wrap_block_size - 1 in
      let r = drop key_wrap_block_size ciphertext in
      let (a, rs) = unwrap_rounds n 6 (take key_wrap_block_size ciphertext) (registers n r) in
      (joined rs ++ drop (n * key_wrap_block_size) r, a == key_wrap_default_iv)

unfoldable pub check_wrappable : Octets → Bool
check_wrappable cek =
    leb (2 * key_wrap_block_size) (length cek) && eqb (length cek % key_wrap_block_size) 0

-- aes.NewCipher cannot fail on the sizes that `secret` lets through.
unfoldable pub wrap_key : BlockCipher → SymmetricAlgorithm → Octets → Material → Result Octets
unfolding check_wrappable
wrap_key c algorithm cek key = do
  kek ← secret algorithm key
  guard (check_wrappable cek) (invalid_key_size ∷ [])
  ok (wrap c kek cek)

abbrev pub unwrapped : Octets × Bool → Result Octets
unwrapped (cek, agrees) = if agrees then ok cek else err (decryption_failed ∷ [])

unfoldable pub decrypt_key :
    BlockCipher → SymmetricAlgorithm → Octets → Material → ℕ → Result Octets
unfolding check_content_encryption_key_size
decrypt_key c algorithm encrypted_key key encryption_key_size = do
  kek ← secret algorithm key
  guard
      (not (
        ltb (length encrypted_key) (3 * key_wrap_block_size)
        || not (eqb (length encrypted_key % key_wrap_block_size) 0)))
      (decryption_failed ∷ [])
  cek ← unwrapped (unwrap c kek encrypted_key)
  check_content_encryption_key_size encryption_key_size cek
  ok cek
