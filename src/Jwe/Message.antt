-- ===== src/Jwe/Message.antt =====
-- Recipient and Message of jwe/jwe.go, the checks of their headers, and the algorithms that the
-- headers name. A nil pointer is `none`; "aad" is the one octet string whose nil is told apart.
pub mod Disjoint
use golang_jwt_ci_test.Prelude.{
  ◌≡◌, Bool, true, false, ◌&&◌, Option, none, some, List, [], ◌∷◌, ◌++◌, Octets, text, ◌==◌,
  nat_same, list_same, contains, is_empty, if◌then◌else◌,
}
use golang_jwt_ci_test.Errors.{
  Result, Error, ok, err, ◌>>=◌, ◌>>◌, guard, or_fail, malformed_message,
  duplicate_header_parameter,
}
use golang_jwt_ci_test.Base64Url
use golang_jwt_ci_test.Jwa.Algorithm.{Algorithm}
use golang_jwt_ci_test.Header.Fields.{Header}
use golang_jwt_ci_test.Header.Codec.{Text}
use golang_jwt_ci_test.Header.Members.{Names, members, members_in}

pub record Recipient : Type 0 where
  pub header : Option Header
  pub encrypted_key : Octets
  pub raw_header : Octets
  pub unsupported : Option Error

pub record Message : Type 0 where
  pub protected_header : Option Header
  pub shared_header : Option Header
  pub recipients : List (Option Recipient)
  pub initialization_vector : Octets
  pub ciphertext : Octets
  pub authentication_tag : Octets
  pub additional_authenticated_data : Option Octets

-- The names that occur among those seen before them.
unfoldable pub repeated : List Octets → List Octets → List Octets
repeated seen [] = []
repeated seen (name ∷ rest) =
    let others = repeated (name ∷ seen) rest in if contains seen name then name ∷ others else others

unfoldable pub concat : List (List Octets) → List Octets
concat [] = []
concat (names ∷ rest) = names ++ concat rest

-- checkDisjoint; the sorted names go into the text of the error.
unfoldable pub check_disjoint : List (List Octets) → Result (Unit {0})
check_disjoint member_lists =
    guard (repeated [] (concat member_lists) == []) (duplicate_header_parameter ∷ [])

abbrev pub enc_of : Option Header → Option Algorithm
enc_of none = none
enc_of (some h) = h.encryption_algorithm

abbrev pub alg_of : Option Header → Option Algorithm
alg_of none = none
alg_of (some h) = h.algorithm

abbrev pub header_of : Option Recipient → Option Header
header_of none = none
header_of (some r) = r.header

-- The loop of unprotectedHeaders: the "enc" of the first recipient that names one.
unfoldable pub unprotected_enc : List (Option Recipient) → Option Algorithm
unprotected_enc [] = none
unprotected_enc (r ∷ rest) =
    let later = unprotected_enc rest in
    elim (enc_of (header_of r)) [ none ↦ later | some a ↦ some a ]

abbrev pub absent {ℓ} : {A : Type ℓ} → Option A → Bool
absent none = true
absent (some a) = false

unfoldable pub content_encryption : Message → Result Algorithm
content_encryption m = do
  protected_header ← or_fail m.protected_header (malformed_message ∷ [])
  encryption ← or_fail protected_header.encryption_algorithm (malformed_message ∷ [])
  guard (absent (enc_of m.shared_header)) (malformed_message ∷ [])
  guard (absent (unprotected_enc m.recipients)) (malformed_message ∷ [])
  ok encryption

abbrev pub first_of {ℓ} : {A : Type ℓ} → Option A → Option A → Option A
first_of none b = b
first_of (some a) b = some a

unfoldable pub key_management : Message → Recipient → Result Algorithm
key_management m r =
    or_fail
      (first_of (alg_of m.protected_header) (first_of (alg_of m.shared_header) (alg_of r.header)))
      (malformed_message ∷ [])

-- additionalAuthenticatedData
unfoldable pub authenticated_data : Message → Octets → Octets
authenticated_data m encoded_protected_header = elim m.additional_authenticated_data [
  | none ↦ encoded_protected_header
  | some aad ↦ encoded_protected_header ++ text "." ++ Base64Url.encode aad
]

module _ (t : Text) (names : Names) where
  -- members of a Recipient
  unfoldable pub recipient_members : Recipient → Result (List Octets)
  recipient_members r = elim r.unsupported [
    | none ↦ members t names r.header
    | some e ↦ members_in names r.raw_header
  ]

  -- One pass of the loop. The code reads the protected members once; each read gives the same.
  unfoldable pub check_recipient :
      Option Header → List Octets → Option Recipient → Result (Unit {0})
  check_recipient protected_header shared none = err (malformed_message ∷ [])
  check_recipient protected_header shared (some r) = do
    own ← recipient_members r
    if is_empty shared && is_empty own then ok tt else do
      protected_members ← members t names protected_header
      check_disjoint (protected_members ∷ shared ∷ own ∷ [])

  unfoldable pub check_recipients :
      Option Header → List Octets → List (Option Recipient) → Result (Unit {0})
  check_recipients protected_header shared [] = ok tt
  check_recipients protected_header shared (r ∷ rest) = do
    check_recipient protected_header shared r
    check_recipients protected_header shared rest

  unfoldable pub check_headers : Message → Result (Unit {0})
  check_headers m = do
    shared ← members t names m.shared_header
    check_recipients m.protected_header shared m.recipients
