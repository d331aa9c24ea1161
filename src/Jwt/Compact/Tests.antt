-- ===== src/Jwt/Compact/Tests.antt =====
-- A compact token over a toy decoder: {} for the header and for the claims, and one octet.
use golang_jwt_ci_test.Prelude.{
  ℕ, ◌≡◌, refl, none, some, [], ◌∷◌, Octets, text, if◌then◌else◌, ◌==◌, nat_same, list_same,
}
use golang_jwt_ci_test.Prelude.Int.{pos}
use golang_jwt_ci_test.Errors.{Result, ok, err, foreign}
use golang_jwt_ci_test.Base64Url
use golang_jwt_ci_test.Jwa.Algorithm.{hs256, index, by_name, find_name, name}
use golang_jwt_ci_test.Jwk.Key.{is_private}
use golang_jwt_ci_test.Header.Critical.{check_critical, unsupported, has_duplicate, check_base64}
use golang_jwt_ci_test.Header.Fields.{RawHeader}
use golang_jwt_ci_test.Header.Codec.{Text}
use golang_jwt_ci_test.Header.RoundTrip.{empty}
use golang_jwt_ci_test.Header.Codec
use golang_jwt_ci_test.Jws.{Signature, check_content_encryption}
use golang_jwt_ci_test.Jws
use golang_jwt_ci_test.Jwt.Token.{Claims, Token, Services}
use golang_jwt_ci_test.Prelude.Dots.{count_dots, cut}
use golang_jwt_ci_test.Jwt.Compact.{
  new_token, unmarshal, unmarshal_signed, unmarshal_parts, unmarshal_payload, marshal, signed,
}
use golang_jwt_ci_test.Jwt.Compact.RoundTrip.{marshal-unmarshal}

abbrev no_claims : Claims
no_claims = record {
  audience = [];
  expiration_time = none;
  issued_at = none;
  issuer = [];
  id = [];
  not_before = none;
  subject = [];
  private_claims = [];
}

abbrev raw_header : RawHeader
raw_header = record {
  type_ = [];
  content_type = [];
  algorithm = text "HS256";
  jwk_set_url = [];
  jwk = none;
  key_id = [];
  x509_url = [];
  x509_certificate_chain = [];
  x509_certificate_sha1_thumbprint = [];
  x509_certificate_sha256_thumbprint = [];
  critical = [];
  encryption_algorithm = [];
  compression_algorithm = [];
  ephemeral_public_key = none;
  agreement_party_u_info = [];
  agreement_party_v_info = [];
  initialization_vector = [];
  authentication_tag = [];
  pbes2_salt_input = [];
  pbes2_count = pos 0;
  base64url_encode_payload = none;
}

abbrev braces : Services
braces = record {
  verify = λ a input signature material. ok tt;
  sign = λ a input material. ok input;
  write_claims = λ c. ok (text "{}");
  read_claims = λ json. if json == text "{}" then ok no_claims else err (foreign 0 ∷ []);
  header_text = record {
    write_json = λ r. text "{}";
    read_json = λ json. if json == text "{}" then ok raw_header else err (foreign 1 ∷ []);
    url_string = λ u. [];
    url_parse = λ u. ok 0;
  };
  header_names = λ json. ok [];
  equal_fold = λ a b. a == b;
  certificate_key = λ c. err (foreign 2 ∷ []);
  check_certificate_chain = λ key chain. ok tt;
  check_header_certificates = λ key h. ok tt;
  policy = λ p key h. ok tt;
  rule = λ r token config. ok tt;
  issuance_rule = λ r token. (token, ok tt);
  time_now = pos 0;
}

abbrev read_token : Token
read_token =
    new_token (record { claims = no_claims; encoded_payload = text "e30" })
      (record {
        protected_header =
            some (record empty { algorithm = some hs256; encoded_header = text "e30" });
        header = none;
        signature = 1 ∷ [];
      })

abbrev no_message : Octets → Result ℕ
no_message token = err (foreign 3 ∷ [])

read_ok : unmarshal braces no_message (text "e30.e30.AQ") ≡ ok (signed read_token)
unfolding unmarshal unmarshal_signed unmarshal_parts unmarshal_payload count_dots cut Jws.unmarshal
    Codec.unmarshal Codec.unmarshal_json check_content_encryption Base64Url.decode Codec.from_raw
    index check_critical unsupported has_duplicate check_base64 Codec.read_algorithm by_name
    find_name name Codec.read_url Codec.read_encryption is_private Codec.decode_octets
read_ok = refl

marshal-unmarshal_example : (marshal braces read_token).1 ≡ ok (text "e30.e30.AQ")
marshal-unmarshal_example =
    marshal-unmarshal braces no_message (text "e30.e30.AQ") read_token (foreign 1 ∷ [])
      (foreign 0 ∷ []) refl refl read_ok
