-- ===== src/Header/Tests.antt =====
-- A header with an algorithm, a key identifier and a URL, over a toy codec.
use golang_jwt_ci_test.Prelude.{◌≡◌, refl, true, false, none, some, [], ◌∷◌, arith, text}
use golang_jwt_ci_test.Errors.{ok, err, unencoded_payload}
use golang_jwt_ci_test.Base64Url
use golang_jwt_ci_test.Jwa.Algorithm.{hs256, a128gcm, name, is_content_encrypter}
use golang_jwt_ci_test.Jwk.Key.{is_private}
use golang_jwt_ci_test.Header.Critical.{
  check_critical, check_critical_iff, Agrees, unencoded_payload_name, unsupported, has_duplicate,
  check_base64,
}
use golang_jwt_ci_test.Header.Fields.{Header, RawHeader}
use golang_jwt_ci_test.Header.Codec.{Text, raw_fields, encode_octets, raw, marshal, unmarshal}
use golang_jwt_ci_test.Header.RoundTrip.{empty, IsRead, IsWritable, unmarshal-marshal}

false_b64 : check_critical (unencoded_payload_name ∷ []) (some false) ≡ err (unencoded_payload ∷ [])
unfolding check_critical unsupported has_duplicate check_base64
false_b64 = refl

true_b64 : check_critical (unencoded_payload_name ∷ []) (some true) ≡ ok tt
unfolding check_critical unsupported has_duplicate check_base64
true_b64 = refl

check_critical_iff_example : Agrees (unencoded_payload_name ∷ []) (some true)
check_critical_iff_example =
    (check_critical_iff (unencoded_payload_name ∷ []) (some true)).0 true_b64

abbrev sample : Header
sample = record empty {
  algorithm = some hs256;
  jwk_set_url = some 7;
  key_id = text "k1";
  encryption_algorithm = some a128gcm;
  initialization_vector = 250 ∷ 3 ∷ [];
}

abbrev sample_raw : RawHeader
sample_raw = record {
  type_ = [];
  content_type = [];
  algorithm = text "HS256";
  jwk_set_url = text "https://a.example/jwks";
  jwk = none;
  key_id = text "k1";
  x509_url = [];
  x509_certificate_chain = [];
  x509_certificate_sha1_thumbprint = [];
  x509_certificate_sha256_thumbprint = [];
  critical = [];
  encryption_algorithm = text "A128GCM";
  compression_algorithm = [];
  ephemeral_public_key = none;
  agreement_party_u_info = [];
  agreement_party_v_info = [];
  initialization_vector = text "-gM";
  authentication_tag = [];
  pbes2_salt_input = [];
  pbes2_count = sample.pbes2_count;
  base64url_encode_payload = none;
}

-- The text of a header is its key identifier; every header read has the other members of `sample`.
abbrev toy : Text
toy = record {
  write_json = λ r. r.key_id;
  read_json = λ json. ok (record sample_raw { key_id = json });
  url_string = λ u. text "https://a.example/jwks";
  url_parse = λ s. ok 7;
}

toy-IsRead : IsRead toy (raw_fields toy sample)
unfolding raw_fields encode_octets Base64Url.encode name
toy-IsRead = record { write_json-IsOctets = omega arith; read_json-write_json = refl }

sample-IsWritable : IsWritable toy sample
unfolding is_content_encrypter is_private
sample-IsWritable = record {
  jwk_set_url = (λ e. cc, refl);
  x509_url = tt;
  encrypts = refl;
  public_only = refl;
  apu = tt;
  apv = tt;
  iv = omega arith;
  tag = tt;
  p2s = tt;
}

marshal_runs : marshal toy sample ≡ ok (text "azE")
unfolding marshal raw raw_fields check_critical unsupported has_duplicate check_base64
    Base64Url.encode
marshal_runs = refl

unmarshal-marshal_example :
    unmarshal toy empty (text "azE") ≡ ok (record sample { encoded_header = text "azE" })
unmarshal-marshal_example =
    unmarshal-marshal toy sample (text "azE") toy-IsRead sample-IsWritable refl marshal_runs
