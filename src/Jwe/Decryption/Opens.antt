-- ===== src/Jwe/Decryption/Opens.antt =====
-- What Decrypt of jwe/jwe.go gives, and with which error it fails.
use golang_jwt_ci_test.Prelude.{
  ◌≡◌, ◌↔◌, ◌⊎◌, inl, inr, refl, false, Option, none, some, List, [], ◌∷◌, arith, Octets,
}
use golang_jwt_ci_test.Errors.{
  Error, ok, err, >>=-eq_ok, eq_ok->>=, Result-cases, decryption_failed,
}
use golang_jwt_ci_test.Jwa.Algorithm.{Algorithm}
use golang_jwt_ci_test.Jwa.Material.{Material}
use golang_jwt_ci_test.Header.Fields.{Header}
use golang_jwt_ci_test.Jwe.Message.{Recipient, Message}
use golang_jwt_ci_test.Jwe.Decryption.{
  Slice, Suite, decompress, prepare_decryption, decrypt_entry, try_recipients, decrypt,
  decryption_failure, is_only,
}

module _ (s : Suite) (m : Message) (key : Option Material) where
  -- The first recipient that opens gives the plaintext.
  abbrev pub FirstOpens : Header × Algorithm × Octets → Slice → List (Option Recipient) → Type 0
  FirstOpens p plaintext [] = ⊥
  FirstOpens p plaintext (r ∷ rest) =
      (decrypt_entry s m key p r ≡ ok plaintext)
      ⊎ (((e : Error) × (decrypt_entry s m key p r ≡ err e)) × FirstOpens p plaintext rest)

  abbrev Opens : Header × Algorithm × Octets → Slice → List (Option Recipient) → Type 0
  Opens p result rs =
      (plaintext : Slice) × FirstOpens p plaintext rs × (decompress s p.0 plaintext ≡ ok result)

  try_recipients-Opens :
      (p : Header × Algorithm × Octets) (failure : Option Error) (rs : List (Option Recipient))
      (result : Slice)
      → try_recipients s m key p failure rs ≡ ok result
      → Opens p result rs
  unfolding try_recipients
  try_recipients-Opens p failure [] result h = ground arith
  try_recipients-Opens p failure (r ∷ rest) result h =
      elim (Result-cases (decrypt_entry s m key p r)) [
        | inl (plaintext, e) ↦ (plaintext, inl e, ground (arith, e, h))
        | inr (x, e) ↦
            let (plaintext, f, d) =
              try_recipients-Opens p (some x) rest result (ground (arith, e, h)) in
            (plaintext, inr ((x, e), f), d)
      ]

  Opens-try_recipients :
      (p : Header × Algorithm × Octets) (failure : Option Error) (rs : List (Option Recipient))
      (result plaintext : Slice)
      → FirstOpens p plaintext rs
      → decompress s p.0 plaintext ≡ ok result
      → try_recipients s m key p failure rs ≡ ok result
  unfolding try_recipients
  Opens-try_recipients p failure [] result plaintext f d = absurd f
  Opens-try_recipients p failure (r ∷ rest) result plaintext (inl e) d = ground (arith, e, d)
  Opens-try_recipients p failure (r ∷ rest) result plaintext (inr ((x, e), later)) d =
      ground (arith, e, Opens-try_recipients p (some x) rest result plaintext later d)

  -- Decrypt gives a plaintext exactly when the message passes the checks before decryption, some
  -- recipient entry opens after others that do not, and what it holds decompresses to the plaintext.
  pub decrypt_iff :
      (result : Slice)
      → (decrypt s m key ≡ ok result) ↔ (
          (p : Header × Algorithm × Octets) × (prepare_decryption s m ≡ ok p)
          × (plaintext : Slice) × FirstOpens p plaintext m.recipients
          × (decompress s p.0 plaintext ≡ ok result))
  unfolding decrypt
  decrypt_iff result = (
    λ h.
        let (p, q, h1) = >>=-eq_ok (prepare_decryption s m) _ h in
        let (plaintext, f, d) = try_recipients-Opens p none m.recipients result h1 in
        (p, q, plaintext, f, d),
    λ (p, q, plaintext, f, d).
        eq_ok->>= (prepare_decryption s m) _ q
          (Opens-try_recipients p none m.recipients result plaintext f d),
  )

  all_shut :
      (p : Header × Algorithm × Octets) (failure : Option Error) (rs : List (Option Recipient))
      → is_only m.recipients ≡ false
      → ((plaintext : Slice) → ¬ FirstOpens p plaintext rs)
      → try_recipients s m key p failure rs ≡ err (decryption_failed ∷ [])
  unfolding try_recipients decryption_failure
  all_shut p none [] o n = refl
  all_shut p (some x) [] o n = ground (arith, o)
  all_shut p failure (r ∷ rest) o n = elim (Result-cases (decrypt_entry s m key p r)) [
    | inl (plaintext, q) ↦ absurd (n plaintext (inl q))
    | inr (x, q) ↦
        ground (arith, q, all_shut p (some x) rest o (λ plaintext f. n plaintext (inr ((x, q), f))))
  ]

  -- A message with more than one recipient that passes the checks before decryption, and of which the
  -- key opens no recipient, gives ErrDecryptionFailed and no other error, whatever each recipient
  -- failed with.
  pub decrypt_same_error :
      (p : Header × Algorithm × Octets)
      → prepare_decryption s m ≡ ok p
      → is_only m.recipients ≡ false
      → ((plaintext : Slice) → ¬ FirstOpens p plaintext m.recipients)
      → decrypt s m key ≡ err (decryption_failed ∷ [])
  unfolding decrypt
  decrypt_same_error p q o n = rw q (all_shut p none m.recipients o n)
