-- ===== src/Jwe/Compact/Tests.antt =====
-- A compact message over a toy decoder: {} for the header, and one octet in each other part.
use golang_jwt_ci_test.Prelude.{
  ◌≡◌, refl, none, some, [], ◌∷◌, text, if◌then◌else◌, ◌==◌, nat_same, list_same,
}
use golang_jwt_ci_test.Prelude.Int.{pos}
use golang_jwt_ci_test.Prelude.Dots.{count_dots, cut}
use golang_jwt_ci_test.Errors.{ok, err, foreign}
use golang_jwt_ci_test.Base64Url
use golang_jwt_ci_test.Jwk.Key.{is_private}
use golang_jwt_ci_test.Header.Critical.{check_critical, unsupported, has_duplicate, check_base64}
use golang_jwt_ci_test.Header.Fields.{RawHeader}
use golang_jwt_ci_test.Header.Codec.{Text}
use golang_jwt_ci_test.Header.Codec
use golang_jwt_ci_test.Header.RoundTrip.{empty}
use golang_jwt_ci_test.Jwe.Message.{Message}
use golang_jwt_ci_test.Jwe.Compact.{unmarshal, unmarshal_parts, marshal, decode_octets}
use golang_jwt_ci_test.Jwe.Compact.RoundTrip.{marshal-unmarshal_message}

abbrev blank : RawHeader
blank = record {
  type_ = [];
  content_type = [];
  algorithm = [];
  jwk_set_url = [];
  jwk = none;
  key_id = [];
  x509_url = [];
  x509_certificate_chain = [];
  x509_certificate_sha1_thumbprint = [];
  x509_certificate_sha256_thumbprint = [];
  critical = [];
  encryption_algorithm = [];
  compression_algorithm = [];
  ephemeral_public_key = none;
  agreement_party_u_info = [];
  agreement_party_v_info = [];
  initialization_vector = [];
  authentication_tag = [];
  pbes2_salt_input = [];
  pbes2_count = pos 0;
  base64url_encode_payload = none;
}

abbrev braces : Text
braces = record {
  write_json = λ r. text "{}";
  read_json = λ json. if json == text "{}" then ok blank else err (foreign 0 ∷ []);
  url_string = λ u. [];
  url_parse = λ u. ok 0;
}

abbrev read_message : Message
read_message = record {
  protected_header = some (record empty { encoded_header = text "e30" });
  shared_header = none;
  recipients =
      some (record { header = none; encrypted_key = 1 ∷ []; raw_header = []; unsupported = none })
      ∷ [];
  initialization_vector = 2 ∷ [];
  ciphertext = [];
  authentication_tag = 1 ∷ [];
  additional_authenticated_data = none;
}

message_ok : unmarshal braces (text "e30.AQ.Ag..AQ") ≡ ok read_message
unfolding unmarshal unmarshal_parts count_dots cut Codec.unmarshal Codec.unmarshal_json
    Base64Url.decode Codec.from_raw check_critical unsupported has_duplicate check_base64
    Codec.read_algorithm Codec.read_url Codec.read_encryption is_private Codec.decode_octets
    decode_octets
message_ok = refl

marshal-unmarshal_message_example : marshal braces read_message ≡ ok (text "e30.AQ.Ag..AQ")
marshal-unmarshal_message_example =
    marshal-unmarshal_message braces (text "e30.AQ.Ag..AQ") read_message (foreign 0 ∷ []) refl
      message_ok
