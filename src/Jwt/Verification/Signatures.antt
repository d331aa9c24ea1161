-- ===== src/Jwt/Verification/Signatures.antt =====
-- What verifySignatures of token.go accepts, with one signature or with all of them.
use golang_jwt_ci_test.Prelude.{
  ◌≡◌, ◌↔◌, ◌⊎◌, inl, inr, refl, subst, some, none, Bool, true, false, Option, List, [], ◌∷◌, ◌++◌,
  arith, Octets, All,
}
use golang_jwt_ci_test.Errors.{
  Error, ok, Result-cases, or_fail, or_fail-eq_ok, >>=-eq_ok, malformed_token,
}
use golang_jwt_ci_test.Jwk.KeySet.{KeySet}
use golang_jwt_ci_test.Header.Fields.{Header}
use golang_jwt_ci_test.Jws.{Signature}
use golang_jwt_ci_test.Jws
use golang_jwt_ci_test.Jwt.Token.{Token, VerificationConfig, Services}
use golang_jwt_ci_test.Jwt.Verification.{
  verify_signature, well_formed, verify_each, verify_signatures,
}
use golang_jwt_ci_test.Jwt.Verification.Authentic.{IsAuthentic, verify_signature_iff}

module _ (s : Services) (config : VerificationConfig) (encoded_payload : Octets)
    (set : Option KeySet) where
  -- The signature has this protected header, disjoint from the unprotected one, and these octets.
  abbrev pub HasParts : Option Signature → Header × Octets → Type 0
  HasParts signature p =
      (x : Signature) × (signature ≡ some x)
      × (x.protected_header ≡ some p.0)
      × (Jws.disjoint s.header_text s.header_names (some p.0) x.header ≡ ok tt)
      × (x.signature ≡ p.1)

  well_formed_iff :
      (signature : Option Signature) (p : Header × Octets)
      → (well_formed s signature ≡ ok p) ↔ HasParts signature p
  unfolding well_formed
  well_formed_iff none p = (λ h. absurd (cc), λ h. absurd (cc (h.1)))
  well_formed_iff (some signature) p = (
    λ h.
        let (header, found, h1) =
          >>=-eq_ok (or_fail signature.protected_header (malformed_token ∷ [])) _ h in
        elim (Result-cases
          (Jws.disjoint s.header_text s.header_names (some header) signature.header)) [
            | inr (x, e) ↦ ground (arith, e, h1)
            | inl (u, e) ↦
                let same : (header, signature.signature) ≡ p = ground (arith, e, h1) in
                subst (λ q. HasParts (some signature) q) same
                  (signature, refl, or_fail-eq_ok _ _ found, e, refl)
          ],
    λ (x, is, header, apart, octets). ground (arith, is, header, apart, octets),
  )

  -- The signature has a protected header, disjoint from the unprotected one.
  abbrev pub IsWellFormed : Option Signature → Type 0
  IsWellFormed signature = (p : Header × Octets) × HasParts signature p

  abbrev pub Passes : Option Signature → Type 0
  Passes signature =
      (p : Header × Octets) × HasParts signature p
      × IsAuthentic s config encoded_payload set p.0 p.1

  -- Some signature passes, and those before it are well formed.
  abbrev pub OnePasses : List (Option Signature) → Type 0
  OnePasses [] = ⊥
  OnePasses (signature ∷ rest) = Passes signature ⊎ (IsWellFormed signature × OnePasses rest)

  abbrev pub AreVerified : Bool → List (Option Signature) → Type 0
  AreVerified true signatures = All Passes signatures
  AreVerified false signatures = OnePasses signatures

  All-pass :
      (signatures : List (Option Signature)) (failures : List Error) (types : List Octets)
      → config.all_signatures ≡ true
      → (verify_each s config encoded_payload set signatures failures types).1 ≡ ok tt
      → All Passes signatures
  unfolding verify_each
  All-pass [] failures types a h = tt
  All-pass (signature ∷ rest) failures types a h = elim (Result-cases (well_formed s signature)) [
    | inr (x, e) ↦ ground arith
    | inl (p, e) ↦ elim (Result-cases (verify_signature s config encoded_payload set p.0 p.1)) [
      | inr (x, q) ↦ ground (arith, a, e, q)
      | inl (u, q) ↦ (
        (
          p,
          (well_formed_iff signature p).0 e,
          (verify_signature_iff s config encoded_payload set p.0 p.1).0 q,
        ),
        All-pass rest failures (types ++ p.0.type_ ∷ []) a (ground (arith, a, e, q)),
      )
    ]
  ]

  pass-All :
      (signatures : List (Option Signature)) (failures : List Error) (types : List Octets)
      → config.all_signatures ≡ true
      → All Passes signatures
      → (verify_each s config encoded_payload set signatures failures types).1 ≡ ok tt
  unfolding verify_each
  pass-All [] failures types a h = ground arith
  pass-All (signature ∷ rest) failures types a ((p, e, i), later) = ground (
    arith,
    a,
    (well_formed_iff signature p).1 e,
    (verify_signature_iff s config encoded_payload set p.0 p.1).1 i,
    pass-All rest failures (types ++ p.0.type_ ∷ []) a later,
  )

  one_passes :
      (signatures : List (Option Signature)) (failures : List Error) (types : List Octets)
      → config.all_signatures ≡ false
      → (verify_each s config encoded_payload set signatures failures types).1 ≡ ok tt
      → OnePasses signatures
  unfolding verify_each
  one_passes [] failures types a h = ground arith
  one_passes (signature ∷ rest) failures types a h = elim (Result-cases (well_formed s signature)) [
    | inr (x, e) ↦ ground arith
    | inl (p, e) ↦ elim (Result-cases (verify_signature s config encoded_payload set p.0 p.1)) [
      | inr (x, q) ↦ inr (
        (p, (well_formed_iff signature p).0 e),
        one_passes rest (failures ++ x ∷ []) types a (ground (arith, a, e, q)),
      )
      | inl (u, q) ↦ inl (
        p,
        (well_formed_iff signature p).0 e,
        (verify_signature_iff s config encoded_payload set p.0 p.1).0 q,
      )
    ]
  ]

  pass_one :
      (signatures : List (Option Signature)) (failures : List Error) (types : List Octets)
      → config.all_signatures ≡ false
      → OnePasses signatures
      → (verify_each s config encoded_payload set signatures failures types).1 ≡ ok tt
  unfolding verify_each
  pass_one [] failures types a h = absurd h
  pass_one (signature ∷ rest) failures types a (inl (p, e, i)) = ground (
    arith,
    a,
    (well_formed_iff signature p).1 e,
    (verify_signature_iff s config encoded_payload set p.0 p.1).1 i,
  )
  pass_one (signature ∷ rest) failures types a (inr ((p, e), later)) =
      elim (Result-cases (verify_signature s config encoded_payload set p.0 p.1)) [
        | inr (x, q) ↦ ground (
          arith,
          a,
          (well_formed_iff signature p).1 e,
          q,
          pass_one rest (failures ++ x ∷ []) types a later,
        )
        | inl (u, q) ↦ ground (arith, a, (well_formed_iff signature p).1 e, q)
      ]

  verified_by :
      (all : Bool) (token : Token)
      → config.all_signatures ≡ all
      → ((verify_each s config encoded_payload set token.signatures [] token.authenticated_types).1
          ≡ ok tt)
        ↔ AreVerified all token.signatures
  verified_by true token a = (All-pass token.signatures [] _ a, pass-All token.signatures [] _ a)
  verified_by false token a = (one_passes token.signatures [] _ a, pass_one token.signatures [] _ a)

  -- verifySignatures succeeds exactly when every signature passes, where the configuration asks for
  -- all of them, and otherwise when some signature passes and those before it are well formed: they
  -- have a protected header, disjoint from the unprotected one. A signature passes that is well formed
  -- and authentic.
  pub verify_signatures_iff :
      (token : Token)
      → ((verify_signatures s config encoded_payload set token).1 ≡ ok tt)
        ↔ AreVerified config.all_signatures token.signatures
  unfolding verify_signatures
  verify_signatures_iff token = verified_by config.all_signatures token refl
