-- ===== src/Jwt/Verification/Types.antt =====
-- The media types that verifySignatures of token.go records for checkType.
use golang_jwt_ci_test.Prelude.{
  ◌≡◌, ◌⊎◌, inl, inr, refl, sym, Bool, true, false, Option, List, [], ◌∷◌, ◌++◌, arith, Octets,
  append_assoc, append-nil,
}
use golang_jwt_ci_test.Errors.{Error, ok, err, Result-cases}
use golang_jwt_ci_test.Jwk.KeySet.{KeySet}
use golang_jwt_ci_test.Header.Fields.{Header}
use golang_jwt_ci_test.Jws.{Signature}
use golang_jwt_ci_test.Jwt.Token.{Token, VerificationConfig, Services}
use golang_jwt_ci_test.Jwt.Verification.{
  verify_signature, well_formed, verify_each, verify_signatures,
}
use golang_jwt_ci_test.Jwt.Verification.Authentic.{IsAuthentic, verify_signature_iff}

module _ (s : Services) where
  -- The types of the protected headers of the signatures that are well formed.
  abbrev pub header_types : List (Option Signature) → List Octets
  header_types [] = []
  header_types (signature ∷ rest) = elim (well_formed s signature) [
    | err e ↦ header_types rest
    | ok (protected_header, octets) ↦ protected_header.type_ ∷ header_types rest
  ]

module _ (s : Services) (config : VerificationConfig) (encoded_payload : Octets)
    (set : Option KeySet) where
  -- A signature that passes has the type in its protected header.
  abbrev pub PassesAs : Octets → List (Option Signature) → Type 0
  PassesAs type [] = ⊥
  PassesAs type (signature ∷ rest) =
      ((p : Header × Octets) × (well_formed s signature ≡ ok p)
        × IsAuthentic s config encoded_payload set p.0 p.1
        × (p.0.type_ ≡ type))
      ⊎ PassesAs type rest

  abbrev pub TypesOf : Bool → List (Option Signature) → List Octets → List Octets → Type 0
  TypesOf true signatures before types = types ≡ before ++ header_types s signatures
  TypesOf false signatures before types =
      (type : Octets) × (types ≡ before ++ type ∷ []) × PassesAs type signatures

  all_types :
      (signatures : List (Option Signature)) (failures : List Error) (types : List Octets)
      → config.all_signatures ≡ true
      → (verify_each s config encoded_payload set signatures failures types).1 ≡ ok tt
      → (verify_each s config encoded_payload set signatures failures types).0
        ≡ types ++ header_types s signatures
  unfolding verify_each
  all_types [] failures types a h = sym (append-nil types)
  all_types (signature ∷ rest) failures types a h = elim (Result-cases (well_formed s signature)) [
    | inr (x, e) ↦ ground arith
    | inl (p, e) ↦ elim (Result-cases (verify_signature s config encoded_payload set p.0 p.1)) [
      | inr (x, q) ↦ ground (arith, a, e, q)
      | inl (u, q) ↦
          let later =
            all_types rest failures (types ++ p.0.type_ ∷ []) a (ground (arith, a, e, q)) in
          ground (arith, a, e, q, later, append_assoc types (p.0.type_ ∷ []) (header_types s rest))
    ]
  ]

  one_type :
      (signatures : List (Option Signature)) (failures : List Error) (types : List Octets)
      → config.all_signatures ≡ false
      → (verify_each s config encoded_payload set signatures failures types).1 ≡ ok tt
      → (type : Octets) × ((verify_each s config encoded_payload set signatures failures types).0
          ≡ types ++ type ∷ [])
        × PassesAs type signatures
  unfolding verify_each
  one_type [] failures types a h = ground arith
  one_type (signature ∷ rest) failures types a h = elim (Result-cases (well_formed s signature)) [
    | inr (x, e) ↦ ground arith
    | inl (p, e) ↦ elim (Result-cases (verify_signature s config encoded_payload set p.0 p.1)) [
      | inr (x, q) ↦
          let (type, t, i) = one_type rest (failures ++ x ∷ []) types a (ground (arith, a, e, q)) in
          (type, ground (arith, a, e, q, t), inr i)
      | inl (u, q) ↦ (
        p.0.type_,
        ground (arith, a, e, q),
        inl (p, e, (verify_signature_iff s config encoded_payload set p.0 p.1).0 q, refl),
      )
    ]
  ]

  typed_by :
      (all : Bool) (token : Token)
      → config.all_signatures ≡ all
      → (verify_signatures s config encoded_payload set token).1 ≡ ok tt
      → TypesOf all token.signatures token.authenticated_types
          (verify_signatures s config encoded_payload set token).0.authenticated_types
  unfolding verify_signatures
  typed_by true token a h = all_types token.signatures [] token.authenticated_types a h
  typed_by false token a h = one_type token.signatures [] token.authenticated_types a h

  -- When verifySignatures succeeds, it adds to the authenticated types the type of each signature
  -- where the configuration asks for all of them, and otherwise the type of one signature that
  -- passes and of no other.
  pub verify_signatures-TypesOf :
      (token : Token)
      → (verify_signatures s config encoded_payload set token).1 ≡ ok tt
      → TypesOf config.all_signatures token.signatures token.authenticated_types
          (verify_signatures s config encoded_payload set token).0.authenticated_types
  verify_signatures-TypesOf token h = typed_by config.all_signatures token refl h
