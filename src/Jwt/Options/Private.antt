-- ===== src/Jwt/Options/Private.antt =====
-- The private claims of a token that NewToken of token.go made.
use golang_jwt_ci_test.Prelude.{
  ℕ, none, text, ◌≡◌, inl, inr, refl, subst, ◌∙◌, Bool, true, false, not, List, [], ◌∷◌, arith,
  Octets, ◌==◌, nat_same, list_same, contains, All, Bool-cases,
}
use golang_jwt_ci_test.Errors.{Error, ok, from_ok, guard, >>=-eq_ok}
use golang_jwt_ci_test.Jwt.Token.{Value}
use golang_jwt_ci_test.Jwt.Confirmation.{ClaimValue, Reader}
use golang_jwt_ci_test.Jwt.Confirmation
use golang_jwt_ci_test.Jwt.Encryption.{SealedToken}
use golang_jwt_ci_test.Jwt.Options.{
  registered_claims, set_private_claim, TokenOption, with_private_claim, with_issuer, with_subject,
  with_id, with_type, with_audience, with_expiration_time, with_not_before, with_issued_at,
  with_signature, with_issuance_rule, with_confirmation, with_encryption, add_confirmation,
  apply_option, apply_options, blank_sealed, new_token,
}

-- No private claim has a registered name.
abbrev pub NoneReserved : List (Octets × Value) → Type 0
NoneReserved = All (λ entry. contains registered_claims entry.0 ≡ false)

set_private_claim-NoneReserved :
    (name : Octets) (value : Value) (entries : List (Octets × Value))
    → contains registered_claims name ≡ false
    → NoneReserved entries
    → NoneReserved (set_private_claim name value entries)
unfolding set_private_claim
set_private_claim-NoneReserved name value [] h k = (h, tt)
set_private_claim-NoneReserved name value ((key, old) ∷ rest) h (k, later) =
    elim (Bool-cases (key == name)) [
      | inl e ↦ ground (arith, e, k, later)
      | inr e ↦ ground (arith, e, k, set_private_claim-NoneReserved name value rest h later)
    ]

-- The token has no signature and no message yet, nothing authenticated it, and no private claim is
-- reserved.
pub record IsNew (t : SealedToken) : Type 0 where
  pub is_unsigned : t.token.signatures ≡ []
  pub is_untyped : t.token.authenticated_types ≡ []
  pub is_unverified : t.token.verified ≡ false
  pub is_unsealed : t.message ≡ none
  pub none_reserved : NoneReserved t.token.payload.claims.private_claims

not_reserved : (b : Bool) (e : Error) → guard (not b) e ≡ ok tt → b ≡ false
not_reserved true e h = ground arith
not_reserved false e h = refl

keep :
    (t next changed : SealedToken)
    → IsNew t
    → next.token.signatures ≡ t.token.signatures
    → next.token.authenticated_types ≡ t.token.authenticated_types
    → next.token.verified ≡ t.token.verified
    → next.message ≡ t.message
    → NoneReserved next.token.payload.claims.private_claims
    → ok next ≡ ok changed
    → IsNew changed
keep t next changed n a b c d p h = subst IsNew (from_ok h) (record {
  is_unsigned = a ∙ n.is_unsigned;
  is_untyped = b ∙ n.is_untyped;
  is_unverified = c ∙ n.is_unverified;
  is_unsealed = d ∙ n.is_unsealed;
  none_reserved = p;
})

module _ (r : Reader) (value_of : ClaimValue → Value) (confirmation_check : ℕ) where
  apply_option-IsNew :
      (option : TokenOption) (t changed : SealedToken)
      → IsNew t
      → apply_option r value_of confirmation_check option t ≡ ok changed
      → IsNew changed
  unfolding apply_option add_confirmation
  apply_option-IsNew (with_private_claim key value) t changed n h =
      let (u, g, h1) = >>=-eq_ok (guard (not (contains registered_claims key)) _) _ h in
      keep t _ changed n refl refl refl refl
        (set_private_claim-NoneReserved key value _
          (not_reserved (contains registered_claims key) _ g) n.none_reserved)
        h1
  apply_option-IsNew (with_confirmation c) t changed n h =
      let (members, g, h1) = >>=-eq_ok (Confirmation.with_confirmation r c) _ h in
      keep t _ changed n refl refl refl refl
        (set_private_claim-NoneReserved (text "cnf") (value_of members) _ refl n.none_reserved) h1
  apply_option-IsNew (with_issuer i) t changed n h =
      keep t _ changed n refl refl refl refl n.none_reserved h
  apply_option-IsNew (with_subject i) t changed n h =
      keep t _ changed n refl refl refl refl n.none_reserved h
  apply_option-IsNew (with_id i) t changed n h =
      keep t _ changed n refl refl refl refl n.none_reserved h
  apply_option-IsNew (with_type y) t changed n h =
      keep t _ changed n refl refl refl refl n.none_reserved h
  apply_option-IsNew (with_audience a) t changed n h =
      keep t _ changed n refl refl refl refl n.none_reserved h
  apply_option-IsNew (with_expiration_time i) t changed n h =
      keep t _ changed n refl refl refl refl n.none_reserved h
  apply_option-IsNew (with_not_before i) t changed n h =
      keep t _ changed n refl refl refl refl n.none_reserved h
  apply_option-IsNew (with_issued_at i) t changed n h =
      keep t _ changed n refl refl refl refl n.none_reserved h
  apply_option-IsNew (with_signature algorithm key options) t changed n h =
      keep t _ changed n refl refl refl refl n.none_reserved h
  apply_option-IsNew (with_issuance_rule rules) t changed n h =
      keep t _ changed n refl refl refl refl n.none_reserved h
  apply_option-IsNew (with_encryption algorithm encryption key options) t changed n h =
      keep t _ changed n refl refl refl refl n.none_reserved h

  apply_options-IsNew :
      (options : List TokenOption) (t changed : SealedToken)
      → IsNew t
      → apply_options r value_of confirmation_check options t ≡ ok changed
      → IsNew changed
  unfolding apply_options
  apply_options-IsNew [] t changed n h = keep t t changed n refl refl refl refl n.none_reserved h
  apply_options-IsNew (option ∷ rest) t changed n h =
      let (next, a, h1) = >>=-eq_ok (apply_option r value_of confirmation_check option t) _ h in
      apply_options-IsNew rest next changed (apply_option-IsNew option t next n a) h1

  -- A token that NewToken makes from any options of the package has no signature, no message, no
  -- authenticated type and is not verified, and none of its private claims has the name of a
  -- registered claim.
  pub new_token-IsNew :
      (options : List TokenOption) (t : SealedToken)
      → new_token r value_of confirmation_check options ≡ ok t
      → IsNew t
  unfolding new_token
  new_token-IsNew options t h =
      apply_options-IsNew options blank_sealed t
        (record {
          is_unsigned = refl;
          is_untyped = refl;
          is_unverified = refl;
          is_unsealed = refl;
          none_reserved = tt;
        })
        h
