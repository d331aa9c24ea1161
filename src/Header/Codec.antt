-- ===== src/Header/Codec.antt =====
-- raw, MarshalJSON, UnmarshalJSON, Marshal and Unmarshal of header/header.go. The JSON text of a
-- rawHeader (encoding/json/v2) and the text of a URL (net/url) are parameters.
use golang_jwt_ci_test.Prelude.{
  not, Option, none, some, [], ◌∷◌, Octets, ◌==◌, nat_same, list_same, if◌then◌else◌,
}
use golang_jwt_ci_test.Errors.{
  Result, ok, ◌>>=◌, ◌>>◌, guard, or_fail, unsupported_algorithm, private_ephemeral_key,
}
use golang_jwt_ci_test.Base64Url
use golang_jwt_ci_test.Jwa.Algorithm.{Algorithm, name, by_name, is_content_encrypter}
use golang_jwt_ci_test.Jwk.Key.{is_private}
use golang_jwt_ci_test.Header.Critical.{check_critical}
use golang_jwt_ci_test.Header.Fields.{Header, RawHeader, Url}

-- json.Marshal and json.Unmarshal of a rawHeader; String and Parse of a URL.
pub record Text : Type 0 where
  pub write_json : RawHeader → Octets
  pub read_json : Octets → Result RawHeader
  pub url_string : Url → Octets
  pub url_parse : Octets → Result Url

unfoldable pub encode_octets : Octets → Octets
encode_octets octets = Base64Url.encode octets

unfoldable pub decode_octets : Octets → Result Octets
decode_octets encoded = if encoded == [] then ok [] else Base64Url.decode encoded

-- `if a != nil { ... = a.String() }`
abbrev pub name_of : Option Algorithm → Octets
name_of none = []
name_of (some a) = name a

module _ (t : Text) where
  abbrev pub url_text : Option Url → Octets
  url_text none = []
  url_text (some u) = t.url_string u

  -- The literal of the rawHeader, with the octet parameters and the texts of the values.
  unfoldable pub raw_fields : Header → RawHeader
  raw_fields h = record {
    type_ = h.type_;
    content_type = h.content_type;
    algorithm = name_of h.algorithm;
    jwk_set_url = url_text h.jwk_set_url;
    jwk = h.jwk;
    key_id = h.key_id;
    x509_url = url_text h.x509_url;
    x509_certificate_chain = h.x509_certificate_chain;
    x509_certificate_sha1_thumbprint = h.x509_certificate_sha1_thumbprint;
    x509_certificate_sha256_thumbprint = h.x509_certificate_sha256_thumbprint;
    critical = h.critical;
    encryption_algorithm = name_of h.encryption_algorithm;
    compression_algorithm = h.compression_algorithm;
    ephemeral_public_key = h.ephemeral_public_key;
    agreement_party_u_info = encode_octets h.agreement_party_u_info;
    agreement_party_v_info = encode_octets h.agreement_party_v_info;
    initialization_vector = encode_octets h.initialization_vector;
    authentication_tag = encode_octets h.authentication_tag;
    pbes2_salt_input = encode_octets h.pbes2_salt_input;
    pbes2_count = h.pbes2_count;
    base64url_encode_payload = h.base64url_encode_payload;
  }

  unfoldable pub raw : Header → Result RawHeader
  raw h = do check_critical h.critical h.base64url_encode_payload; ok (raw_fields h)

  unfoldable pub marshal_json : Header → Result Octets
  marshal_json h = do r ← raw h; ok (t.write_json r)

  -- A member that is present replaces the field of the header; an absent one leaves it.
  unfoldable pub read_algorithm : Option Algorithm → Octets → Result (Option Algorithm)
  read_algorithm before n =
      if n == []
      then ok before
      else do a ← or_fail (by_name n) (unsupported_algorithm ∷ []); ok (some a)

  unfoldable pub read_url : Option Url → Octets → Result (Option Url)
  read_url before s = if s == [] then ok before else do u ← t.url_parse s; ok (some u)

  unfoldable pub read_encryption : Option Algorithm → Octets → Result (Option Algorithm)
  read_encryption before n = if n == [] then ok before else do
    a ← or_fail (by_name n) (unsupported_algorithm ∷ [])
    guard (is_content_encrypter a) (unsupported_algorithm ∷ [])
    ok (some a)

  -- UnmarshalJSON past json.Unmarshal.
  unfoldable pub from_raw : Header → RawHeader → Result Header
  from_raw h r = do
    check_critical r.critical r.base64url_encode_payload
    algorithm ← read_algorithm h.algorithm r.algorithm
    jwk_set_url ← read_url h.jwk_set_url r.jwk_set_url
    x509_url ← read_url h.x509_url r.x509_url
    encryption_algorithm ← read_encryption h.encryption_algorithm r.encryption_algorithm
    guard (not (is_private r.ephemeral_public_key)) (private_ephemeral_key ∷ [])
    apu ← decode_octets r.agreement_party_u_info
    apv ← decode_octets r.agreement_party_v_info
    iv ← decode_octets r.initialization_vector
    tag ← decode_octets r.authentication_tag
    p2s ← decode_octets r.pbes2_salt_input
    ok (record {
      type_ = r.type_;
      content_type = r.content_type;
      algorithm = algorithm;
      jwk_set_url = jwk_set_url;
      jwk = r.jwk;
      key_id = r.key_id;
      x509_url = x509_url;
      x509_certificate_chain = r.x509_certificate_chain;
      x509_certificate_sha1_thumbprint = r.x509_certificate_sha1_thumbprint;
      x509_certificate_sha256_thumbprint = r.x509_certificate_sha256_thumbprint;
      critical = r.critical;
      encryption_algorithm = encryption_algorithm;
      compression_algorithm = r.compression_algorithm;
      ephemeral_public_key = r.ephemeral_public_key;
      agreement_party_u_info = apu;
      agreement_party_v_info = apv;
      initialization_vector = iv;
      authentication_tag = tag;
      pbes2_salt_input = p2s;
      pbes2_count = r.pbes2_count;
      encoded_header = h.encoded_header;
      base64url_encode_payload = r.base64url_encode_payload;
    })

  unfoldable pub unmarshal_json : Header → Octets → Result Header
  unmarshal_json h json = do r ← t.read_json json; from_raw h r

  unfoldable pub unmarshal : Header → Octets → Result Header
  unmarshal h encoded_header = do
    json ← Base64Url.decode encoded_header
    h' ← unmarshal_json h json
    ok (record h' { encoded_header = encoded_header })

  -- base64url.EncodeJSON of the raw header, or the octets that came in.
  unfoldable pub marshal : Header → Result Octets
  marshal h =
      if not (h.encoded_header == [])
      then ok h.encoded_header
      else do r ← raw h; ok (Base64Url.encode (t.write_json r))

-- SetEncoded
unfoldable pub set_encoded : Octets → Header → Header
set_encoded encoded_header h = record h { encoded_header = encoded_header }
