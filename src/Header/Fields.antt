-- ===== src/Header/Fields.antt =====
-- Header and rawHeader of header/header.go, the options, and the key parameters. A *url.URL is a
-- number that stands for it; a nil []byte and an empty one are both the empty list.
use golang_jwt_ci_test.Prelude.{ℕ, Bool, Option, none, some, List, Octets, nat_same, list_same}
use golang_jwt_ci_test.Prelude.Int.{ℤ}
use golang_jwt_ci_test.Jwa.Algorithm.{Algorithm}
use golang_jwt_ci_test.Jwa.Material.{Material}
use golang_jwt_ci_test.Jwk.Key.{Key}

abbrev pub Url : Type 0
Url = ℕ

pub record Header : Type 0 where
  pub type_ : Octets
  pub content_type : Octets
  pub algorithm : Option Algorithm
  pub jwk_set_url : Option Url
  pub jwk : Option Key
  pub key_id : Octets
  pub x509_url : Option Url
  pub x509_certificate_chain : List Octets
  pub x509_certificate_sha1_thumbprint : Octets
  pub x509_certificate_sha256_thumbprint : Octets
  pub critical : List Octets
  pub encryption_algorithm : Option Algorithm
  pub compression_algorithm : Octets
  pub ephemeral_public_key : Option Key
  pub agreement_party_u_info : Octets
  pub agreement_party_v_info : Octets
  pub initialization_vector : Octets
  pub authentication_tag : Octets
  pub pbes2_salt_input : Octets
  pub pbes2_count : ℤ
  pub encoded_header : Octets
  pub base64url_encode_payload : Option Bool

-- rawHeader: the JSON members; the empty text is an absent member.
pub record RawHeader : Type 0 where
  pub type_ : Octets
  pub content_type : Octets
  pub algorithm : Octets
  pub jwk_set_url : Octets
  pub jwk : Option Key
  pub key_id : Octets
  pub x509_url : Octets
  pub x509_certificate_chain : List Octets
  pub x509_certificate_sha1_thumbprint : Octets
  pub x509_certificate_sha256_thumbprint : Octets
  pub critical : List Octets
  pub encryption_algorithm : Octets
  pub compression_algorithm : Octets
  pub ephemeral_public_key : Option Key
  pub agreement_party_u_info : Octets
  pub agreement_party_v_info : Octets
  pub initialization_vector : Octets
  pub authentication_tag : Octets
  pub pbes2_salt_input : Octets
  pub pbes2_count : ℤ
  pub base64url_encode_payload : Option Bool

unfoldable pub with_jwk_set_url : Url → Header → Header
with_jwk_set_url u h = record h { jwk_set_url = some u }

unfoldable pub with_jwk : Option Key → Header → Header
with_jwk k h = record h { jwk = k }

unfoldable pub with_key_id : Octets → Header → Header
with_key_id id h = record h { key_id = id }

unfoldable pub with_x509_url : Url → Header → Header
with_x509_url u h = record h { x509_url = some u }

unfoldable pub with_x509_certificate_chain : List Octets → Header → Header
with_x509_certificate_chain chain h = record h { x509_certificate_chain = chain }

unfoldable pub with_x509_certificate_sha1_thumbprint : Octets → Header → Header
with_x509_certificate_sha1_thumbprint t h = record h { x509_certificate_sha1_thumbprint = t }

unfoldable pub with_x509_certificate_sha256_thumbprint : Octets → Header → Header
with_x509_certificate_sha256_thumbprint t h = record h { x509_certificate_sha256_thumbprint = t }

-- jwa.KeyParameters
pub record KeyParameters : Type 0 where
  pub ephemeral_public_key : Option Material
  pub agreement_party_u_info : Octets
  pub agreement_party_v_info : Octets
  pub initialization_vector : Octets
  pub authentication_tag : Octets
  pub pbes2_salt_input : Octets
  pub pbes2_count : ℤ

abbrev material_of : Option Key → Option Material
material_of none = none
material_of (some key) = key.material

unfoldable pub key_parameters : Header → KeyParameters
key_parameters h = record {
  ephemeral_public_key = material_of h.ephemeral_public_key;
  agreement_party_u_info = h.agreement_party_u_info;
  agreement_party_v_info = h.agreement_party_v_info;
  initialization_vector = h.initialization_vector;
  authentication_tag = h.authentication_tag;
  pbes2_salt_input = h.pbes2_salt_input;
  pbes2_count = h.pbes2_count;
}
