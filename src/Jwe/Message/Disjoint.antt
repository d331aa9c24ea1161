-- ===== src/Jwe/Message/Disjoint.antt =====
-- What checkDisjoint and checkHeaders of jwe/jwe.go accept.
use golang_jwt_ci_test.Prelude.{
  ◌≡◌, ◌↔◌, ◌⊎◌, inl, inr, refl, false, ◌&&◌, Option, none, some, List, [], ◌∷◌, arith, Octets,
  nat_same, list_same, list_eqb_iff, contains, if◌then◌else◌, All, Distinct, is_empty,
}
use golang_jwt_ci_test.Errors.{Result, ok, >>=-eq_ok, eq_ok->>=}
use golang_jwt_ci_test.Header.Fields.{Header}
use golang_jwt_ci_test.Header.Codec.{Text}
use golang_jwt_ci_test.Header.Members.{Names, members}
use golang_jwt_ci_test.Jwe.Message.{
  Recipient, Message, repeated, concat, check_disjoint, recipient_members, check_recipient,
  check_recipients, check_headers,
}

abbrev Unseen : List Octets → List Octets → Type 0
Unseen seen = All (λ n. contains seen n ≡ false)

Unseen-cons :
    (n : Octets) (seen rest : List Octets)
    → Unseen (n ∷ seen) rest ↔ (Unseen seen rest × (contains rest n ≡ false))
Unseen-cons n seen [] = ground arith
Unseen-cons n seen (x ∷ rest) =
    ground (arith, Unseen-cons n seen rest, list_eqb_iff n x, list_eqb_iff x n)

Unseen-nil : (names : List Octets) → Unseen [] names
Unseen-nil [] = tt
Unseen-nil (n ∷ rest) = (refl, Unseen-nil rest)

repeated_iff :
    (seen names : List Octets) → (repeated seen names ≡ []) ↔ (Unseen seen names × Distinct names)
unfolding repeated
repeated_iff seen [] = ground arith
repeated_iff seen (n ∷ rest) = ground (arith, repeated_iff (n ∷ seen) rest, Unseen-cons n seen rest)

-- checkDisjoint accepts lists of names exactly when no name occurs twice in all of them.
pub check_disjoint_iff :
    (member_lists : List (List Octets))
    → (check_disjoint member_lists ≡ ok tt) ↔ Distinct (concat member_lists)
unfolding check_disjoint
check_disjoint_iff member_lists = ground (
  arith,
  list_eqb_iff (repeated [] (concat member_lists)) [],
  repeated_iff [] (concat member_lists),
  Unseen-nil (concat member_lists),
)

unless_empty :
    (shared own : List Octets) (r : Result (Unit {0}))
    → ((if is_empty shared && is_empty own then ok tt else r) ≡ ok tt)
      ↔ (((shared ≡ []) × (own ≡ [])) ⊎ (r ≡ ok tt))
unless_empty [] [] r = ground arith
unless_empty [] (x ∷ own) r = ground arith
unless_empty (x ∷ shared) own r = ground arith

module _ (t : Text) (names : Names) where
  -- A recipient whose headers name no parameter twice, or a message with unprotected names nowhere.
  abbrev pub IsDisjoint : Option Header → List Octets → Option Recipient → Type 0
  IsDisjoint protected_header shared none = ⊥
  IsDisjoint protected_header shared (some r) =
      (own : List Octets) × (recipient_members t names r ≡ ok own)
      × (((shared ≡ []) × (own ≡ []))
          ⊎ ((protected_members : List Octets) × (members t names protected_header
                ≡ ok protected_members)
              × Distinct (concat (protected_members ∷ shared ∷ own ∷ []))))

  check_recipient_iff :
      (h : Option Header) (shared : List Octets) (r : Option Recipient)
      → (check_recipient t names h shared r ≡ ok tt) ↔ IsDisjoint h shared r
  unfolding check_recipient
  check_recipient_iff h shared none = ground arith
  check_recipient_iff h shared (some r) = (
    λ q.
        let (own, o, q1) = >>=-eq_ok (recipient_members t names r) _ q in
        (
          own,
          o,
          elim ((unless_empty shared own _).0 q1) [
            | inl e ↦ inl e
            | inr q2 ↦
                let (p, m, q3) = >>=-eq_ok (members t names h) _ q2 in
                inr (p, m, (check_disjoint_iff (p ∷ shared ∷ own ∷ [])).0 q3)
          ],
        ),
    λ (own, o, d). eq_ok->>= (recipient_members t names r) _ o (
        (unless_empty shared own _).1 (elim d [
          | inl e ↦ inl e
          | inr (p, m, k) ↦
              inr (
                eq_ok->>= (members t names h) _ m
                  ((check_disjoint_iff (p ∷ shared ∷ own ∷ [])).1 k))
        ])),
  )

  check_recipients_iff :
      (h : Option Header) (shared : List Octets) (rs : List (Option Recipient))
      → (check_recipients t names h shared rs ≡ ok tt) ↔ All (IsDisjoint h shared) rs
  unfolding check_recipients
  check_recipients_iff h shared [] = ground arith
  check_recipients_iff h shared (r ∷ rest) = (
    λ q.
        let (u, c, q1) = >>=-eq_ok (check_recipient t names h shared r) _ q in
        ((check_recipient_iff h shared r).0 c, (check_recipients_iff h shared rest).0 q1),
    λ (d, later).
        eq_ok->>= (check_recipient t names h shared r) _ ((check_recipient_iff h shared r).1 d)
          ((check_recipients_iff h shared rest).1 later),
  )

  -- checkHeaders accepts a message exactly when the shared header has members, no recipient is nil,
  -- and for each recipient either both unprotected headers are empty, or no name occurs twice in the
  -- protected, the shared and its own header together.
  pub check_headers_iff :
      (m : Message)
      → (check_headers t names m ≡ ok tt) ↔ (
          (shared : List Octets) × (members t names m.shared_header ≡ ok shared)
          × All (IsDisjoint m.protected_header shared) m.recipients)
  unfolding check_headers
  check_headers_iff m = (
    λ q.
        let (shared, s, q1) = >>=-eq_ok (members t names m.shared_header) _ q in
        (shared, s, (check_recipients_iff m.protected_header shared m.recipients).0 q1),
    λ (shared, s, d).
        eq_ok->>= (members t names m.shared_header) _ s
          ((check_recipients_iff m.protected_header shared m.recipients).1 d),
  )
