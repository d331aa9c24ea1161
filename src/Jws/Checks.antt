-- ===== src/Jws/Checks.antt =====
-- What the checks of jws/signature.go keep out.
use golang_jwt_ci_test.Prelude.{
  ◌≡◌, refl, ◌⊎◌, inl, inr, true, false, Option, some, List, [], ◌∷◌, arith, Octets, ◌==◌, nat_same,
  list_same, list_eqb_iff, contains, All, Bool-cases, subst,
}
use golang_jwt_ci_test.Errors.{ok, Result-cases, >>=-eq_ok}
use golang_jwt_ci_test.Base64Url
use golang_jwt_ci_test.Header.Fields.{Header}
use golang_jwt_ci_test.Header.Codec.{Text}
use golang_jwt_ci_test.Header.Codec
use golang_jwt_ci_test.Header.Members.{Names, members}
use golang_jwt_ci_test.Header.RoundTrip.{empty}
use golang_jwt_ci_test.Jws.{
  Signature, Json, has_base64, has_encryption, check_unencoded_payload, check_content_encryption,
  duplicates, disjoint, unmarshal_json, marshal_json, read_member,
}

no_duplicates :
    (ps us : List Octets) → (duplicates ps us == []) ≡ true → All (λ n. contains ps n ≡ false) us
unfolding duplicates
no_duplicates ps [] h = tt
no_duplicates ps (u ∷ us) h = elim (Bool-cases (contains ps u)) [
  | inl e ↦ cc (rw e at h)
  | inr e ↦ (e, no_duplicates ps us (rw e at h))
]

module _ (t : Text) (names : Names) where
  -- The two headers write no member name together: every name of the unprotected header is absent
  -- from the protected one. An unprotected header with no member needs no look at the other.
  abbrev pub Disjoint : Option Header → Option Header → Type 0
  Disjoint p u =
      (us : List Octets) × (members t names u ≡ ok us)
      × ((us ≡ [])
          ⊎ ((ps : List Octets) × (members t names p ≡ ok ps)
              × All (λ n. contains ps n ≡ false) us))

  disjoint-Disjoint : (p u : Option Header) → disjoint t names p u ≡ ok tt → Disjoint p u
  unfolding disjoint
  disjoint-Disjoint p u h = elim (Result-cases (members t names u)) [
    | inr (x, failed) ↦ cc (rw failed at h)
    | inl (us, found) ↦ elim (Bool-cases (us == [])) [
      | inl e ↦ (us, found, inl ((list_eqb_iff us []).0 e))
      | inr e ↦
          let h' = rw (found, e) at h in
          elim (Result-cases (members t names p)) [
            | inr (x, failed) ↦ cc (rw failed at h')
            | inl (ps, seen) ↦
                let h'' = rw seen at h' in
                (us, found, inr (ps, seen, no_duplicates ps us (ground arith)))
          ]
    ]
  ]

  -- What a signature of a JSON serialization has once it is read.
  pub record IsAccepted (s : Signature) : Type 0 where
    pub disjoint_names : Disjoint s.protected_header s.header
    pub no_unprotected_base64 : has_base64 s.header ≡ false
    pub no_protected_encryption : has_encryption s.protected_header ≡ false
    pub no_unprotected_encryption : has_encryption s.header ≡ false

  checks-IsAccepted :
      (p u : Option Header) (s : Octets)
      → check_unencoded_payload u ≡ ok tt
      → check_content_encryption (p ∷ u ∷ []) ≡ ok tt
      → disjoint t names p u ≡ ok tt
      → IsAccepted (record { protected_header = p; header = u; signature = s })
  unfolding check_unencoded_payload check_content_encryption
  checks-IsAccepted p u s b e d = record {
    disjoint_names = disjoint-Disjoint p u d;
    no_unprotected_base64 = ground arith;
    no_protected_encryption = ground arith;
    no_unprotected_encryption = ground arith;
  }

  -- A signature that UnmarshalJSON reads from a JSON serialization has a protected header, no member
  -- name in both headers, no "enc" in either, and no "b64" in the unprotected one.
  pub unmarshal_json-IsAccepted :
      (json : Json) (octets : Octets) {s : Signature}
      → unmarshal_json t names json octets ≡ ok s
      → IsAccepted s × ((h : Header) × (s.protected_header ≡ some h))
  unfolding unmarshal_json
  unmarshal_json-IsAccepted json octets {s} h =
      let (raw, _, h1) = >>=-eq_ok (json.read octets) _ h in
      let (unprotected, _, h2) = >>=-eq_ok (read_member t names raw.header) _ h1 in
      let (protected, _, h3) = >>=-eq_ok (Codec.unmarshal t empty raw.protected_header) _ h2 in
      let (_, b, h4) = >>=-eq_ok (check_unencoded_payload unprotected) _ h3 in
      let (_, e, h5) =
        >>=-eq_ok (check_content_encryption (some protected ∷ unprotected ∷ [])) _ h4 in
      let (_, d, h6) = >>=-eq_ok (disjoint t names (some protected) unprotected) _ h5 in
      let (decoded, _, h7) = >>=-eq_ok (Base64Url.decode raw.signature) _ h6 in
      let made : record {
        protected_header = some protected;
        header = unprotected;
        signature = decoded;
      }
          ≡ s =
        ground arith in
      subst (λ x. IsAccepted x × ((h : Header) × (x.protected_header ≡ some h))) made
        (checks-IsAccepted (some protected) unprotected decoded b e d, (protected, refl))

  -- MarshalJSON writes a signature only if its two headers share no member name, neither has "enc"
  -- and the unprotected one has no "b64": what UnmarshalJSON would refuse is not written.
  pub marshal_json-IsAccepted :
      (json : Json) (signature : Octets) (p : Header) (u : Option Header) {written : Octets}
      → marshal_json t names json p u signature ≡ ok written
      → IsAccepted (record { protected_header = some p; header = u; signature = signature })
  unfolding marshal_json
  marshal_json-IsAccepted json signature p u h =
      let (_, d, h1) = >>=-eq_ok (disjoint t names (some p) u) _ h in
      let (_, b, h2) = >>=-eq_ok (check_unencoded_payload u) _ h1 in
      let (_, e, h3) = >>=-eq_ok (check_content_encryption (some p ∷ u ∷ [])) _ h2 in
      checks-IsAccepted (some p) u signature b e d
