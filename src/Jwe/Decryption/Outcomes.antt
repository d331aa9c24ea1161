-- ===== src/Jwe/Decryption/Outcomes.antt =====
-- DecryptAll of jwe/jwe.go against Decrypt.
use golang_jwt_ci_test.Prelude.{
  ◌≡◌, ◌≢◌, ◌⊎◌, inl, inr, refl, ap, Option, none, some, List, [], ◌∷◌, arith, Octets, All, map,
}
use golang_jwt_ci_test.Errors.{Result, Error, ok, err, ◌>>=◌}
use golang_jwt_ci_test.Jwa.Algorithm.{Algorithm}
use golang_jwt_ci_test.Jwa.Material.{Material}
use golang_jwt_ci_test.Header.Fields.{Header}
use golang_jwt_ci_test.Jwe.Message.{Recipient, Message}
use golang_jwt_ci_test.Jwe.Decryption.{
  Slice, Suite, decompress, prepare_decryption, decrypt_entry, try_recipients, decrypt,
  decryption_failure, try_all, decrypt_all, outcome_of, failure_after, plaintext_after, Report,
}

module _ (s : Suite) (m : Message) (key : Option Material) where
  -- No recipient entry opens to a nil slice.
  abbrev pub NoneNil : Header × Algorithm × Octets → List (Option Recipient) → Type 0
  NoneNil p = All (λ r. decrypt_entry s m key p r ≢ ok none)

  found :
      (p : Header × Algorithm × Octets) (octets : Octets) (failure : Option Error)
      (rs : List (Option Recipient))
      → (try_all s m key p (some octets) failure rs).result ≡ decompress s p.0 (some octets)
  unfolding try_all
  found p octets failure [] = refl
  found p octets failure (r ∷ rest) =
      found p octets (failure_after failure (decrypt_entry s m key p r)) rest

  open_head :
      (p : Header × Algorithm × Octets) (failure : Option Error) (rest : List (Option Recipient))
      (x : Result Slice)
      → x ≢ ok none
      → ((f : Option Error)
          → (try_all s m key p none f rest).result ≡ try_recipients s m key p f rest)
      → (try_all s m key p (plaintext_after none x) (failure_after failure x) rest).result
        ≡ elim x [
          | ok plaintext ↦ decompress s p.0 plaintext
          | err e ↦ try_recipients s m key p (some e) rest
        ]
  open_head p failure rest (err e) n ih = ih (some e)
  open_head p failure rest (ok none) n ih = absurd (n refl)
  open_head p failure rest (ok (some octets)) n ih = found p octets failure rest

  try_all-eq_try_recipients :
      (p : Header × Algorithm × Octets) (failure : Option Error) (rs : List (Option Recipient))
      → NoneNil p rs
      → (try_all s m key p none failure rs).result ≡ try_recipients s m key p failure rs
  unfolding try_all try_recipients
  try_all-eq_try_recipients p failure [] n = refl
  try_all-eq_try_recipients p failure (r ∷ rest) (n, later) =
      open_head p failure rest (decrypt_entry s m key p r) n
        (λ f. try_all-eq_try_recipients p f rest later)

  -- Where no entry opens to a nil slice, DecryptAll returns the plaintext or the error that Decrypt
  -- returns, though it goes on past the first entry that opens.
  pub decrypt_all-eq_decrypt :
      ((p : Header × Algorithm × Octets) → prepare_decryption s m ≡ ok p → NoneNil p m.recipients)
      → (decrypt_all s m key).result ≡ decrypt s m key
  unfolding decrypt_all decrypt
  decrypt_all-eq_decrypt n = prepared (prepare_decryption s m) n
    where
      prepared :
          (q : Result (Header × Algorithm × Octets))
          → ((p : Header × Algorithm × Octets) → q ≡ ok p → NoneNil p m.recipients)
          → Report.result (elim q [
            | err e ↦ record { result = err e; outcomes = [] }
            | ok p ↦ try_all s m key p none none m.recipients
          ])
            ≡ (q >>= λ p. try_recipients s m key p none m.recipients)
      prepared (err e) n = refl
      prepared (ok p) n = try_all-eq_try_recipients p none m.recipients (n p refl)

  -- No entry gives octets: each fails, or opens to a nil slice.
  abbrev pub NoneHolds : Header × Algorithm × Octets → List (Option Recipient) → Type 0
  NoneHolds p = All (λ r.
      ((e : Error) × (decrypt_entry s m key p r ≡ err e)) ⊎ (decrypt_entry s m key p r ≡ ok none))

  none_found :
      (p : Header × Algorithm × Octets) (failure : Option Error) (rs : List (Option Recipient))
      → NoneHolds p rs
      → (e : Error) × ((try_all s m key p none failure rs).result ≡ err e)
  unfolding try_all
  none_found p failure [] n = (decryption_failure m failure, refl)
  none_found p failure (r ∷ rest) (inl (x, q), later) =
      let (e, t) = none_found p (some x) rest later in (e, ground (arith, q, t))
  none_found p failure (r ∷ rest) (inr q, later) =
      let (e, t) = none_found p failure rest later in (e, ground (arith, q, t))

  -- Where every entry that opens opens to a nil slice, DecryptAll gives an error, also when such an
  -- entry makes Decrypt succeed.
  pub decrypt_all-fails :
      (p : Header × Algorithm × Octets)
      → prepare_decryption s m ≡ ok p
      → NoneHolds p m.recipients
      → (e : Error) × ((decrypt_all s m key).result ≡ err e)
  unfolding decrypt_all
  decrypt_all-fails p q n =
      let (e, t) = none_found p none m.recipients n in (e, ground (arith, q, t))

  outcomes :
      (p : Header × Algorithm × Octets) (plaintext : Slice) (failure : Option Error)
      (rs : List (Option Recipient))
      → (try_all s m key p plaintext failure rs).outcomes
        ≡ map (λ r. outcome_of m (decrypt_entry s m key p r)) rs
  unfolding try_all
  outcomes p plaintext failure [] = refl
  outcomes p plaintext failure (r ∷ rest) =
      let opened = decrypt_entry s m key p r in
      ap (◌∷◌ (outcome_of m opened))
        (outcomes p (plaintext_after plaintext opened) (failure_after failure opened) rest)

  -- DecryptAll reports one outcome for each recipient, in their sequence: what that entry alone gives
  -- under the key, whatever the entries before it gave.
  pub decrypt_all-outcomes :
      (p : Header × Algorithm × Octets)
      → prepare_decryption s m ≡ ok p
      → (decrypt_all s m key).outcomes
        ≡ map (λ r. outcome_of m (decrypt_entry s m key p r)) m.recipients
  unfolding decrypt_all
  decrypt_all-outcomes p q = ground (arith, q, outcomes p none none m.recipients)
