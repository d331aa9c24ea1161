-- ===== src/Jwt/Token.antt =====
-- The state of the package jwt (token.go): Token, its payload and its pending signatures,
-- VerificationConfig with its options (token.go, extension.go, headerkey.go), and the services that
-- the operations call. A pointer or a func that may be nil is an Option. An instant and a duration
-- are numbers of nanoseconds with no bound, where Go's wrap after 292 years.
use golang_jwt_ci_test.Prelude.{
  ℕ, Bool, true, false, Option, none, some, List, [], ◌∷◌, ◌++◌, Octets, nat_same, list_same,
}
use golang_jwt_ci_test.Prelude.Int.{ℤ, pos}
use golang_jwt_ci_test.Errors.{Result}
use golang_jwt_ci_test.Jwa.Algorithm.{
  Algorithm, hs256, hs384, hs512, rs256, rs384, rs512, es256, es384, es512, ps256, ps384, ps512,
  eddsa, ed25519, mldsa44, mldsa65, mldsa87,
}
use golang_jwt_ci_test.Jwa.Material.{Material}
use golang_jwt_ci_test.Jwk.Key.{Key}
use golang_jwt_ci_test.Header.Fields.{Header}
use golang_jwt_ci_test.Header.Codec.{Text}
use golang_jwt_ci_test.Header.Members.{Names}
use golang_jwt_ci_test.Jws.{Signature}

-- A Go `any`: nil, or a number that stands for the value.
abbrev pub Value : Type 0
Value = Option ℕ

-- A numericDate that is not present is `none`; the map is an association list.
pub record Claims : Type 0 where
  pub audience : List Octets
  pub expiration_time : Option ℤ
  pub issued_at : Option ℤ
  pub issuer : Octets
  pub id : Octets
  pub not_before : Option ℤ
  pub subject : Octets
  pub private_claims : List (Octets × Value)

pub record Payload : Type 0 where
  pub claims : Claims
  pub encoded_payload : Octets

-- The options change the two headers of the new signature; none of them puts another protected
-- header in its place.
pub record PendingSignature : Type 0 where
  pub algorithm : Algorithm
  pub key : Option Key
  pub options : List (Header × Option Header → Header × Option Header)

-- An issuance check is a number that stands for it. The members of an encrypted token are left out.
pub record Token : Type 0 where
  pub payload : Payload
  pub signatures : List (Option Signature)
  pub pending : List PendingSignature
  pub token_type : Octets
  pub issuance_checks : List ℕ
  pub authenticated_types : List Octets
  pub verified : Bool

-- A rule and a header key policy are numbers that stand for them; the clock is the instant it
-- gives; `replay_check` tells that there is an IDStore. A nil list of required algorithms is `none`.
pub record VerificationConfig : Type 0 where
  pub algorithms : List Algorithm
  pub expected_issuer : Octets
  pub expected_subject : Octets
  pub expected_audience : List Octets
  pub leeway : ℤ
  pub expected_type : Octets
  pub max_age : ℤ
  pub replay_check : Bool
  pub clock : Option ℤ
  pub rules : List ℕ
  pub header_keys : List ℕ
  pub required_algorithms : Option (List Algorithm)
  pub all_signatures : Bool
  pub any_type : Bool

-- What the operations call: the signature schemes of jwa, the JSON encoder, strings.EqualFold,
-- crypto/x509 with the checks of jwk/x509.go, the functions of the caller, and time.Now.
pub record Services : Type 0 where
  pub verify : Algorithm → Octets → Octets → Option Material → Result (Unit {0})
  pub sign : Algorithm → Octets → Option Material → Result Octets
  pub write_claims : Claims → Result Octets
  pub read_claims : Octets → Result Claims
  pub header_text : Text
  pub header_names : Names
  pub equal_fold : Octets → Octets → Bool
  pub certificate_key : Octets → Result Key
  pub check_certificate_chain : Key → List Octets → Result (Unit {0})
  pub check_header_certificates : Key → Header → Result (Unit {0})
  pub policy : ℕ → Key → Header → Result (Unit {0})
  pub rule : ℕ → Token → VerificationConfig → Result (Unit {0})
  pub issuance_rule : ℕ → Token → Token × Result (Unit {0})
  pub time_now : ℤ

abbrev pub default_algorithms : List Algorithm
default_algorithms =
    hs256 ∷ hs384 ∷ hs512 ∷ rs256 ∷ rs384 ∷ rs512 ∷ es256 ∷ es384 ∷ es512 ∷ ps256 ∷ ps384 ∷ ps512
    ∷ eddsa ∷ ed25519 ∷ mldsa44 ∷ mldsa65 ∷ mldsa87 ∷ []

abbrev zero_config : VerificationConfig
zero_config = record {
  algorithms = default_algorithms;
  expected_issuer = [];
  expected_subject = [];
  expected_audience = [];
  leeway = pos 0;
  expected_type = [];
  max_age = pos 0;
  replay_check = false;
  clock = none;
  rules = [];
  header_keys = [];
  required_algorithms = none;
  all_signatures = false;
  any_type = false;
}

unfoldable pub apply_options :
    List (VerificationConfig → VerificationConfig) → VerificationConfig → VerificationConfig
apply_options [] config = config
apply_options (option ∷ rest) config = apply_options rest (option config)

unfoldable pub new_verification_config :
    List (VerificationConfig → VerificationConfig) → VerificationConfig
new_verification_config options = apply_options options zero_config

unfoldable pub with_algorithms : List Algorithm → VerificationConfig → VerificationConfig
with_algorithms a config = record config { algorithms = a }

unfoldable pub with_expected_issuer : Octets → VerificationConfig → VerificationConfig
with_expected_issuer i config = record config { expected_issuer = i }

unfoldable pub with_expected_audience : List Octets → VerificationConfig → VerificationConfig
with_expected_audience a config = record config { expected_audience = a }

unfoldable pub with_expected_subject : Octets → VerificationConfig → VerificationConfig
with_expected_subject s config = record config { expected_subject = s }

unfoldable pub with_expected_type : Octets → VerificationConfig → VerificationConfig
with_expected_type t config = record config { expected_type = t; any_type = false }

unfoldable pub with_any_type : VerificationConfig → VerificationConfig
with_any_type config = record config { any_type = true; expected_type = [] }

unfoldable pub with_max_age : ℤ → VerificationConfig → VerificationConfig
with_max_age a config = record config { max_age = a }

unfoldable pub with_replay_check : Bool → VerificationConfig → VerificationConfig
with_replay_check store config = record config { replay_check = store }

unfoldable pub with_clock : Option ℤ → VerificationConfig → VerificationConfig
with_clock c config = record config { clock = c }

unfoldable pub with_leeway : ℤ → VerificationConfig → VerificationConfig
with_leeway l config = record config { leeway = l }

unfoldable pub with_all_signatures : VerificationConfig → VerificationConfig
with_all_signatures config = record config { all_signatures = true }

unfoldable pub with_rule : List ℕ → VerificationConfig → VerificationConfig
with_rule r config = record config { rules = config.rules ++ r }

abbrev required : Option (List Algorithm) → List Algorithm
required none = []
required (some a) = a

-- append to a nil slice; appending nothing keeps it nil.
abbrev append_required : Option (List Algorithm) → List Algorithm → Option (List Algorithm)
append_required none [] = none
append_required old added = some (required old ++ added)

unfoldable pub with_required_algorithms : List Algorithm → VerificationConfig → VerificationConfig
with_required_algorithms a config = record config {
  required_algorithms = append_required config.required_algorithms a;
}

unfoldable pub with_header_key : Option ℕ → VerificationConfig → VerificationConfig
with_header_key none config = config
with_header_key (some policy) config = record config {
  header_keys = config.header_keys ++ policy ∷ [];
}
