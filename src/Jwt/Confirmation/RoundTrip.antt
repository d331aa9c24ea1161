-- ===== src/Jwt/Confirmation/RoundTrip.antt =====
-- A confirmation that WithConfirmation writes into the claims of confirmation.go, read back.
use golang_jwt_ci_test.Prelude.{
  ◌≡◌, ◌≢◌, ◌↔◌, ◌⊎◌, refl, ap, sym, ◌∙◌, Bool, true, false, not, ◌&&◌, Option, none, some, List,
  [], ◌∷◌, ◌++◌, arith, Octets, text, ◌==◌, nat_same, list_same, ltb, list_eqb_iff,
}
use golang_jwt_ci_test.Errors.{ok, guard, >>=-eq_ok, from_ok, guard-eq_ok}
use golang_jwt_ci_test.Jwk.Key.{Key}
use golang_jwt_ci_test.Header.Fields.{Url}
use golang_jwt_ci_test.Jwt.Confirmation.{
  Confirmation, Member, ClaimValue, object, Reader, keys, members, lookup, string_claim,
  key_set_reference, confirmation_key, read_members, confirmation, with_confirmation,
  publishes_secret, check_confirmation_issuance, key_member, text_member, url_member,
}

module _ (r : Reader) where
  -- The address, where there is one, parses back from its text.
  abbrev pub IsAddress : Option Url → Type 0
  IsAddress none = Unit
  IsAddress (some u) = r.url_parse (r.url_string u) ≡ ok u

  key_skip :
      (n : Octets) (k : Option Key) (rest : List (Octets × Member))
      → (text "jwk" == n) ≡ false
      → lookup n (key_member k ++ rest) ≡ lookup n rest
  unfolding lookup
  key_skip n none rest h = refl
  key_skip n (some key) rest h = ground (arith, h)

  url_skip :
      (n : Octets) (u : Option Url) (rest : List (Octets × Member))
      → (text "jku" == n) ≡ false
      → lookup n (url_member r u ++ rest) ≡ lookup n rest
  unfolding lookup
  url_skip n none rest h = refl
  url_skip n (some u) rest h = ground (arith, h)

  text_skip :
      (n name v : Octets) (rest : List (Octets × Member))
      → (name == n) ≡ false
      → lookup n (text_member name v ++ rest) ≡ lookup n rest
  unfolding lookup
  text_skip n name [] rest h = refl
  text_skip n name (o ∷ v) rest h = ground (arith, h)

  text_hit :
      (n v : Octets) (rest : List (Octets × Member))
      → (n == n) ≡ true
      → lookup n rest ≡ none
      → string_claim (lookup n (text_member n v ++ rest)) ≡ ok v
  unfolding lookup string_claim
  text_hit n [] rest same h = ground (arith, h)
  text_hit n (o ∷ v) rest same h = ground (arith, same)

  url_hit :
      (u : Option Url) (rest : List (Octets × Member))
      → IsAddress u
      → lookup (text "jku") rest ≡ none
      → key_set_reference r (lookup (text "jku") (url_member r u ++ rest)) ≡ ok u
  unfolding lookup key_set_reference
  url_hit none rest a h = ground (arith, h)
  url_hit (some u) rest a h = ground (arith, a)

  key_hit :
      (k : Option Key) (rest : List (Octets × Member))
      → lookup (text "jwk") rest ≡ none
      → confirmation_key r (lookup (text "jwk") (key_member k ++ rest)) ≡ ok k
  unfolding lookup confirmation_key
  key_hit none rest h = ground (arith, h)
  key_hit (some key) rest h = refl

  -- The members after each point of the list.
  abbrev thumbprint_on : Confirmation → List (Octets × Member)
  thumbprint_on c = text_member (text "jkt") c.thumbprint

  abbrev key_id_on : Confirmation → List (Octets × Member)
  key_id_on c = text_member (text "kid") c.key_id ++ thumbprint_on c

  abbrev address_on : Confirmation → List (Octets × Member)
  address_on c = url_member r c.key_set_url ++ key_id_on c

  abbrev secret_on : Confirmation → List (Octets × Member)
  secret_on c = text_member (text "jwe") c.encrypted_key ++ address_on c

  thumbprint_skip :
      (n v : Octets) → (text "jkt" == n) ≡ false → lookup n (text_member (text "jkt") v) ≡ none
  unfolding lookup
  thumbprint_skip n [] h = refl
  thumbprint_skip n (o ∷ v) h = ground (arith, h)

  thumbprint_hit :
      (v : Octets) → string_claim (lookup (text "jkt") (text_member (text "jkt") v)) ≡ ok v
  unfolding lookup string_claim
  thumbprint_hit [] = refl
  thumbprint_hit (o ∷ v) = refl

  reads_thumbprint :
      (c : Confirmation) → string_claim (lookup (text "jkt") (members r c)) ≡ ok c.thumbprint
  unfolding members
  reads_thumbprint c =
      ap string_claim (
        key_skip (text "jkt") c.jwk (secret_on c) refl
        ∙ text_skip (text "jkt") (text "jwe") c.encrypted_key (address_on c) refl
        ∙ url_skip (text "jkt") c.key_set_url (key_id_on c) refl
        ∙ text_skip (text "jkt") (text "kid") c.key_id (thumbprint_on c) refl)
      ∙ thumbprint_hit c.thumbprint

  reads_key_id : (c : Confirmation) → string_claim (lookup (text "kid") (members r c)) ≡ ok c.key_id
  unfolding members
  reads_key_id c =
      ap string_claim (
        key_skip (text "kid") c.jwk (secret_on c) refl
        ∙ text_skip (text "kid") (text "jwe") c.encrypted_key (address_on c) refl
        ∙ url_skip (text "kid") c.key_set_url (key_id_on c) refl)
      ∙ text_hit (text "kid") c.key_id (thumbprint_on c) refl
          (thumbprint_skip (text "kid") c.thumbprint refl)

  reads_address :
      (c : Confirmation)
      → IsAddress c.key_set_url
      → key_set_reference r (lookup (text "jku") (members r c)) ≡ ok c.key_set_url
  unfolding members
  reads_address c a =
      ap (key_set_reference r) (
        key_skip (text "jku") c.jwk (secret_on c) refl
        ∙ text_skip (text "jku") (text "jwe") c.encrypted_key (address_on c) refl)
      ∙ url_hit c.key_set_url (key_id_on c) a (
          text_skip (text "jku") (text "kid") c.key_id (thumbprint_on c) refl
          ∙ thumbprint_skip (text "jku") c.thumbprint refl)

  reads_secret :
      (c : Confirmation) → string_claim (lookup (text "jwe") (members r c)) ≡ ok c.encrypted_key
  unfolding members
  reads_secret c =
      ap string_claim (key_skip (text "jwe") c.jwk (secret_on c) refl)
      ∙ text_hit (text "jwe") c.encrypted_key (address_on c) refl (
          url_skip (text "jwe") c.key_set_url (key_id_on c) refl
          ∙ text_skip (text "jwe") (text "kid") c.key_id (thumbprint_on c) refl
          ∙ thumbprint_skip (text "jwe") c.thumbprint refl)

  reads_key : (c : Confirmation) → confirmation_key r (lookup (text "jwk") (members r c)) ≡ ok c.jwk
  unfolding members
  reads_key c = key_hit c.jwk (secret_on c) (
      text_skip (text "jwk") (text "jwe") c.encrypted_key (address_on c) refl
      ∙ url_skip (text "jwk") c.key_set_url (key_id_on c) refl
      ∙ text_skip (text "jwk") (text "kid") c.key_id (thumbprint_on c) refl
      ∙ thumbprint_skip (text "jwk") c.thumbprint refl)

  -- The value that WithConfirmation gives the claim, where it accepts a confirmation whose address
  -- parses back from its text, reads back as that confirmation.
  pub confirmation-with_confirmation :
      (c : Confirmation) (claim : ClaimValue)
      → IsAddress c.key_set_url
      → with_confirmation r c ≡ ok claim
      → confirmation r (some claim) ≡ ok (some c)
  unfolding with_confirmation confirmation read_members
  confirmation-with_confirmation c claim a h =
      let (u, single, h1) = >>=-eq_ok (guard (not (ltb 1 (keys c))) _) _ h in
      let value : object (members r c) ≡ claim = from_ok h1 in
      ground (
        arith,
        sym value,
        reads_secret c,
        reads_key_id c,
        reads_thumbprint c,
        reads_address c a,
        reads_key c,
        single,
      )

  -- checkConfirmationIssuance accepts exactly the tokens with a subject or an issuer whose claim reads
  -- and holds no symmetric key in the clear, unless an encryption is pending.
  pub check_confirmation_issuance_iff :
      (subject issuer : Octets) (claim : Option ClaimValue) (encrypted : Bool)
      → (check_confirmation_issuance r subject issuer claim encrypted ≡ ok tt) ↔ (
          ((subject ≢ []) ⊎ (issuer ≢ []))
          × ((c : Option Confirmation) × (confirmation r claim ≡ ok c)
              × ((publishes_secret r c ≡ false) ⊎ (encrypted ≡ true))))
  unfolding check_confirmation_issuance
  check_confirmation_issuance_iff subject issuer claim encrypted = (
    λ h.
        let (u, named, h1) = >>=-eq_ok (guard (not (subject == [] && issuer == [])) _) _ h in
        let (c, read, h2) = >>=-eq_ok (confirmation r claim) _ h1 in
        (
          (present subject issuer).0 (guard-eq_ok _ _ named),
          (c, read, (allowed (publishes_secret r c) encrypted).0 (guard-eq_ok _ _ h2)),
        ),
    λ (named, (c, read, safe)).
        let passed = (present subject issuer).1 named in
        let kept = (allowed (publishes_secret r c) encrypted).1 safe in
        ground (arith, passed, read, kept),
  )
    where
      present : (s i : Octets) → (not (s == [] && i == []) ≡ true) ↔ ((s ≢ []) ⊎ (i ≢ []))
      present s i = ground (arith, list_eqb_iff s [], list_eqb_iff i [])

      allowed : (p e : Bool) → (not (p && not e) ≡ true) ↔ ((p ≡ false) ⊎ (e ≡ true))
      allowed p e = ground arith
