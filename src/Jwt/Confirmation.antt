-- ===== src/Jwt/Confirmation.antt =====
-- confirmation.go: the "cnf" claim. A value of a JSON object is a text, a *jwk.Key, or another value that
-- a number stands for; json.Marshal and json.Unmarshal of a key are one parameter.
pub mod RoundTrip
mod Tests
use golang_jwt_ci_test.Prelude.{
  ℕ, ◌+◌, ◌≡◌, Bool, true, false, not, ◌&&◌, Option, none, some, List, [], ◌∷◌, ◌++◌, Octets, text,
  ◌==◌, nat_same, list_same, if◌then◌else◌, ltb,
}
use golang_jwt_ci_test.Errors.{
  Result, Error, ok, err, ◌>>=◌, ◌>>◌, guard, malformed_claim, malformed_confirmation,
  multiple_confirmation_keys, unidentified_presenter, unprotected_confirmation_key,
}
use golang_jwt_ci_test.Jwk.Key.{Key, type_of, octet_sequence}
use golang_jwt_ci_test.Header.Fields.{Url}

pub record Confirmation : Type 0 where
  pub jwk : Option Key
  pub encrypted_key : Octets
  pub key_set_url : Option Url
  pub key_id : Octets
  pub thumbprint : Octets

pub data Member : Type 0 where
  string : Octets → Member
  jwk_key : Key → Member
  other : ℕ → Member

-- A private claim: a JSON object, or another value.
pub data ClaimValue : Type 0 where
  object : List (Octets × Member) → ClaimValue
  scalar : ℕ → ClaimValue

-- String and Parse of a URL, and the key that the JSON of a member reads as.
pub record Reader : Type 0 where
  pub url_string : Url → Octets
  pub url_parse : Octets → Result Url
  pub read_key : Member → Result Key

abbrev count {ℓ} : {A : Type ℓ} → Option A → ℕ
count none = 0
count (some a) = 1

unfoldable pub keys : Confirmation → ℕ
keys c = count c.jwk + (if c.encrypted_key == [] then 0 else 1) + count c.key_set_url

abbrev pub key_member : Option Key → List (Octets × Member)
key_member none = []
key_member (some key) = (text "jwk", jwk_key key) ∷ []

abbrev pub text_member : Octets → Octets → List (Octets × Member)
text_member name value = if value == [] then [] else (name, string value) ∷ []

-- A read of a map.
unfoldable pub lookup : Octets → List (Octets × Member) → Option Member
lookup name [] = none
lookup name ((key, value) ∷ rest) =
    let later = lookup name rest in if key == name then some value else later

-- stringClaim
unfoldable pub string_claim : Option Member → Result Octets
string_claim none = ok []
string_claim (some (string value)) = ok value
string_claim (some m) = err (malformed_claim ∷ [])

abbrev pub malformed_or {ℓ} : {A : Type ℓ} → Result A → Result A
malformed_or (ok a) = ok a
malformed_or (err e) = err (malformed_confirmation ∷ e)

abbrev some_of {ℓ} : {A : Type ℓ} → Result A → Result (Option A)
some_of (ok a) = ok (some a)
some_of (err e) = err e

module _ (r : Reader) where
  abbrev pub url_member : Option Url → List (Octets × Member)
  url_member none = []
  url_member (some u) = (text "jku", string (r.url_string u)) ∷ []

  unfoldable pub members : Confirmation → List (Octets × Member)
  members c =
      key_member c.jwk
      ++ (text_member (text "jwe") c.encrypted_key
          ++ (url_member c.key_set_url
              ++ (text_member (text "kid") c.key_id ++ text_member (text "jkt") c.thumbprint)))

  unfoldable pub key_set_reference : Option Member → Result (Option Url)
  key_set_reference none = ok none
  key_set_reference (some (string reference)) = malformed_or (some_of (r.url_parse reference))
  key_set_reference (some m) = err (malformed_confirmation ∷ [])

  unfoldable pub confirmation_key : Option Member → Result (Option Key)
  confirmation_key none = ok none
  confirmation_key (some (jwk_key key)) = ok (some key)
  confirmation_key (some m) = malformed_or (some_of (r.read_key m))

  unfoldable pub read_members : List (Octets × Member) → Result Confirmation
  read_members ms = do
    encrypted_key ← malformed_or (string_claim (lookup (text "jwe") ms))
    key_id ← malformed_or (string_claim (lookup (text "kid") ms))
    thumbprint ← malformed_or (string_claim (lookup (text "jkt") ms))
    key_set_url ← key_set_reference (lookup (text "jku") ms)
    jwk ← confirmation_key (lookup (text "jwk") ms)
    let c : Confirmation = record {
      jwk = jwk;
      encrypted_key = encrypted_key;
      key_set_url = key_set_url;
      key_id = key_id;
      thumbprint = thumbprint;
    }
    guard (not (ltb 1 (keys c))) (multiple_confirmation_keys ∷ [])
    ok c

  -- Confirmation, for the value of the "cnf" claim.
  unfoldable pub confirmation : Option ClaimValue → Result (Option Confirmation)
  confirmation none = ok none
  confirmation (some (scalar n)) = err (malformed_confirmation ∷ [])
  confirmation (some (object ms)) = some_of (read_members ms)

  -- WithConfirmation: the value that the claim gets.
  unfoldable pub with_confirmation : Confirmation → Result ClaimValue
  with_confirmation c = do
    guard (not (ltb 1 (keys c))) (multiple_confirmation_keys ∷ [])
    ok (object (members c))

  -- The key in the clear that asks for an encrypted token.
  unfoldable pub publishes_secret : Option Confirmation → Bool
  publishes_secret none = false
  publishes_secret (some c) = type_of c.jwk == octet_sequence

  -- checkConfirmationIssuance, for the subject, the issuer, the claim, and whether an encryption is pending.
  unfoldable pub check_confirmation_issuance :
      Octets → Octets → Option ClaimValue → Bool → Result (Unit {0})
  check_confirmation_issuance subject issuer claim encrypted = do
    guard (not (subject == [] && issuer == [])) (unidentified_presenter ∷ [])
    c ← confirmation claim
    guard (not (publishes_secret c && not encrypted)) (unprotected_confirmation_key ∷ [])
