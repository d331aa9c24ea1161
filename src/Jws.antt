-- ===== src/Jws.antt =====
-- The package jws (jws/signature.go). The JSON object of a rawSignature is a parameter; its
-- "header" member is a JSON text, which the functions of the header package read and write.
pub mod Checks
mod Tests
use golang_jwt_ci_test.Prelude.{
  ◌≡◌, Bool, true, false, not, Option, none, some, List, [], ◌∷◌, Octets, ◌==◌, nat_same, list_same,
  contains, contains_func, if◌then◌else◌,
}
use golang_jwt_ci_test.Errors.{
  Result, ok, err, ◌>>=◌, ◌>>◌, guard, duplicate_header_parameter, unprotected_unencoded_payload,
  encryption_algorithm,
}
use golang_jwt_ci_test.Base64Url
use golang_jwt_ci_test.Header.Fields.{Header}
use golang_jwt_ci_test.Header.Codec.{Text}
use golang_jwt_ci_test.Header.Codec
use golang_jwt_ci_test.Header.Members.{Names, members, is_zero}
use golang_jwt_ci_test.Header.RoundTrip.{empty}

-- A nil header is `none`.
pub record Signature : Type 0 where
  pub protected_header : Option Header
  pub header : Option Header
  pub signature : Octets

pub record RawSignature : Type 0 where
  pub protected_header : Octets
  pub header : Option Octets
  pub signature : Octets

pub record Json : Type 0 where
  pub write : RawSignature → Octets
  pub read : Octets → Result RawSignature

abbrev pub has_base64 : Option Header → Bool
has_base64 none = false
has_base64 (some h) = elim h.base64url_encode_payload [ none ↦ false | some b ↦ true ]

abbrev pub has_encryption : Option Header → Bool
has_encryption none = false
has_encryption (some h) = elim h.encryption_algorithm [ none ↦ false | some a ↦ true ]

unfoldable pub check_unencoded_payload : Option Header → Result (Unit {0})
check_unencoded_payload unprotected =
    guard (not (has_base64 unprotected)) (unprotected_unencoded_payload ∷ [])

unfoldable pub check_content_encryption : List (Option Header) → Result (Unit {0})
check_content_encryption [] = ok tt
check_content_encryption (candidate ∷ rest) =
    let others = check_content_encryption rest in
    if has_encryption candidate then err (encryption_algorithm ∷ []) else others

unfoldable pub duplicates : List Octets → List Octets → List Octets
duplicates protected_members [] = []
duplicates protected_members (name ∷ rest) =
    let others = duplicates protected_members rest in
    if contains protected_members name then name ∷ others else others

-- String
unfoldable pub signature_text : Signature → Octets
signature_text s = Base64Url.encode s.signature

module _ (t : Text) (names : Names) where
  unfoldable pub disjoint : Option Header → Option Header → Result (Unit {0})
  disjoint protected_header unprotected_header = do
    unprotected_members ← members t names unprotected_header
    if unprotected_members == [] then ok tt else do
      protected_members ← members t names protected_header
      guard (duplicates protected_members unprotected_members == [])
          (duplicate_header_parameter ∷ [])

  -- The compact serialization has no unprotected header; the field keeps what it was.
  unfoldable pub unmarshal : Signature → Octets → Octets → Result Signature
  unmarshal s encoded_header encoded_signature = do
    protected_header ← Codec.unmarshal t empty encoded_header
    check_content_encryption (some protected_header ∷ [])
    decoded ← Base64Url.decode encoded_signature
    ok (record s { protected_header = some protected_header; signature = decoded })

  -- The "header" member, which omitzero leaves out.
  header_member : Option Header → Result (Option Octets)
  header_member none = ok none
  header_member (some h) =
      if is_zero t h then ok none else do json ← Codec.marshal_json t h; ok (some json)

  -- Marshal of a protected header that is not nil; Go panics on a nil one.
  unfoldable pub marshal_json : Json → Header → Option Header → Octets → Result Octets
  unfolding header_member
  marshal_json json protected_header unprotected_header signature = do
    disjoint (some protected_header) unprotected_header
    check_unencoded_payload unprotected_header
    check_content_encryption (some protected_header ∷ unprotected_header ∷ [])
    encoded_protected_header ← Codec.marshal t protected_header
    member ← header_member unprotected_header
    ok (
        json.write (record {
          protected_header = encoded_protected_header;
          header = member;
          signature = Base64Url.encode signature;
        }))

  pub read_member : Option Octets → Result (Option Header)
  read_member none = ok none
  read_member (some json) = do h ← Codec.unmarshal_json t empty json; ok (some h)

  unfoldable pub unmarshal_json : Json → Octets → Result Signature
  unfolding read_member
  unmarshal_json json octets = do
    raw ← json.read octets
    unprotected_header ← read_member raw.header
    protected_header ← Codec.unmarshal t empty raw.protected_header
    check_unencoded_payload unprotected_header
    check_content_encryption (some protected_header ∷ unprotected_header ∷ [])
    disjoint (some protected_header) unprotected_header
    decoded ← Base64Url.decode raw.signature
    ok (record {
      protected_header = some protected_header;
      header = unprotected_header;
      signature = decoded;
    })
