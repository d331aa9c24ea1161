-- ===== src/Jws/Tests.antt =====
-- A signature over a toy codec.
use golang_jwt_ci_test.Prelude.{◌≡◌, refl, none, some, [], ◌∷◌, text}
use golang_jwt_ci_test.Prelude.Int.{pos}
use golang_jwt_ci_test.Errors.{ok, err, encryption_algorithm}
use golang_jwt_ci_test.Base64Url
use golang_jwt_ci_test.Jwa.Algorithm.{hs256, a128gcm, by_name, find_name, name}
use golang_jwt_ci_test.Jwk.Key.{is_private}
use golang_jwt_ci_test.Header.Critical.{check_critical, unsupported, has_duplicate, check_base64}
use golang_jwt_ci_test.Header.Fields.{Header, RawHeader}
use golang_jwt_ci_test.Header.Codec.{
  Text, from_raw, read_algorithm, read_url, read_encryption, decode_octets, encode_octets, raw,
  raw_fields,
}
use golang_jwt_ci_test.Header.Codec
use golang_jwt_ci_test.Header.Members.{Names, members}
use golang_jwt_ci_test.Header.RoundTrip.{empty}
use golang_jwt_ci_test.Jws.{
  Signature, Json, disjoint, unmarshal_json, marshal_json, check_unencoded_payload,
  check_content_encryption,
}
use golang_jwt_ci_test.Jws.Checks.{IsAccepted, unmarshal_json-IsAccepted}

abbrev hs256_raw : RawHeader
hs256_raw = record {
  type_ = [];
  content_type = [];
  algorithm = text "HS256";
  jwk_set_url = [];
  jwk = none;
  key_id = [];
  x509_url = [];
  x509_certificate_chain = [];
  x509_certificate_sha1_thumbprint = [];
  x509_certificate_sha256_thumbprint = [];
  critical = [];
  encryption_algorithm = [];
  compression_algorithm = [];
  ephemeral_public_key = none;
  agreement_party_u_info = [];
  agreement_party_v_info = [];
  initialization_vector = [];
  authentication_tag = [];
  pbes2_salt_input = [];
  pbes2_count = pos 0;
  base64url_encode_payload = none;
}

-- Every header reads as {"alg":"HS256"} and is written as two braces.
abbrev toy : Text
toy = record {
  write_json = λ r. text "{}";
  read_json = λ json. ok hs256_raw;
  url_string = λ u. [];
  url_parse = λ s. ok 0;
}

abbrev toy_names : Names
toy_names json = ok (text "alg" ∷ [])

abbrev toy_json : Json
toy_json = record {
  write = λ r. r.protected_header;
  read =
      λ octets. ok (record { protected_header = text "e30"; header = none; signature = text "AQ" });
}

abbrev protected : Header
protected = record empty { algorithm = some hs256 }

abbrev read_signature : Signature
read_signature = record {
  protected_header = some (record protected { encoded_header = text "e30" });
  header = none;
  signature = 1 ∷ [];
}

unmarshal_runs : unmarshal_json toy toy_names toy_json [] ≡ ok read_signature
unfolding unmarshal_json disjoint Codec.unmarshal Codec.unmarshal_json from_raw read_algorithm
    read_url read_encryption decode_octets Base64Url.decode check_critical unsupported has_duplicate
    check_base64 members check_unencoded_payload check_content_encryption is_private by_name
    find_name name
unmarshal_runs = refl

unmarshal_json-IsAccepted_example : IsAccepted toy toy_names read_signature
unmarshal_json-IsAccepted_example =
    (unmarshal_json-IsAccepted toy toy_names toy_json [] unmarshal_runs).0

marshal_runs : marshal_json toy toy_names toy_json protected none [] ≡ ok (text "e30")
unfolding marshal_json disjoint Codec.marshal raw raw_fields encode_octets check_critical
    unsupported has_duplicate check_base64 members check_unencoded_payload check_content_encryption
    Base64Url.encode
marshal_runs = refl

encrypted_refused :
    marshal_json toy toy_names toy_json
      (record protected { encryption_algorithm = some a128gcm })
      none
      []
    ≡ err (encryption_algorithm ∷ [])
unfolding marshal_json disjoint members check_unencoded_payload check_content_encryption
encrypted_refused = refl
