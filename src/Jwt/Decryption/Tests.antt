-- ===== src/Jwt/Decryption/Tests.antt =====
-- A token that is encrypted for one key and decrypted, over toy algorithms.
use golang_jwt_ci_test.Prelude.{
  ◌≡◌, refl, true, false, none, some, [], ◌∷◌, text, ◌==◌, nat_same, list_same, if◌then◌else◌,
}
use golang_jwt_ci_test.Prelude.Int.{pos}
use golang_jwt_ci_test.Errors.{ok, err, foreign, decryption_failed}
use golang_jwt_ci_test.Base64Url
use golang_jwt_ci_test.Jwa.Algorithm.{
  a128kw, a128gcm, is_verifier, is_content_encrypter, index, algorithm_same,
}
use golang_jwt_ci_test.Jwa.Material.{octets}
use golang_jwt_ci_test.Jwa.Management.{is_key_decrypter, is_key_encrypter, iv_size}
use golang_jwt_ci_test.Jwk.Key.{Key, octet_sequence, suitable, weight}
use golang_jwt_ci_test.Jwk.KeySet.{KeySet, best_of, suits, rank}
use golang_jwt_ci_test.Jwk.KeySet
use golang_jwt_ci_test.Jwk.Public.{set44}
use golang_jwt_ci_test.Header.Fields.{key_parameters}
use golang_jwt_ci_test.Header.Codec.{Text, set_encoded, raw, raw_fields}
use golang_jwt_ci_test.Header.Critical.{check_critical, unsupported, has_duplicate, check_base64}
use golang_jwt_ci_test.Header.Codec
use golang_jwt_ci_test.Header.Members.{members}
use golang_jwt_ci_test.Header.RoundTrip.{empty}
use golang_jwt_ci_test.Header.Agreed.{ephemeral_key, set_key_parameters}
use golang_jwt_ci_test.Jwe.Message.{
  content_encryption, unprotected_enc, key_management, authenticated_data, check_headers,
  check_recipients, check_recipient, recipient_members,
}
use golang_jwt_ci_test.Jwe.Decryption.{
  Suite, try_recipients, decrypt_entry, decrypt_recipient, decompress, prepare_decryption,
  message_key_parameters,
}
use golang_jwt_ci_test.Jwe.Decryption
use golang_jwt_ci_test.Jwe.Encryption.{Sealer, encrypt_to, encrypt_keys, encrypt_one, keyed, seal}
use golang_jwt_ci_test.Jwe.Encryption
use golang_jwt_ci_test.Jwt.Token.{Claims, Services, new_verification_config, apply_options}
use golang_jwt_ci_test.Jwt.Claims.{
  IdStore, check_claims, check_values, check_replay, check_type, check_types, is_expected_type,
  is_expired, is_early, now, apply_rules, check_age, equal_media_type, qualify_media_type,
}
use golang_jwt_ci_test.Jwt.Keys.{Source, with_keys, after_get, after_attempt}
use golang_jwt_ci_test.Jwt.Encryption.{
  SealedToken, new_decryption_config, apply_decryption_options, check_permitted, key_operation,
  decryption_request, apply_header_options, plaintext, pending_header, encrypt,
}
use golang_jwt_ci_test.Jwt.Decryption.{
  SealedOutcome, decrypt, decrypt_with, read_plaintext, is_nested, permitted_header, adopt_nested,
}
use golang_jwt_ci_test.Jwt.Decryption.Decrypted.{Decrypted, decrypt-Decrypted}

abbrev no_claims : Claims
no_claims = record {
  audience = [];
  expiration_time = none;
  issued_at = none;
  issuer = [];
  id = [];
  not_before = none;
  subject = [];
  private_claims = [];
}

abbrev toy_text : Text
toy_text = record {
  write_json = λ r. text "{}";
  read_json = λ json. err (foreign 0 ∷ []);
  url_string = λ u. [];
  url_parse = λ u. ok 0;
}

abbrev services : Services
services = record {
  verify = λ a input signature material. err (foreign 1 ∷ []);
  sign = λ a input material. ok input;
  write_claims = λ c. ok (text "{}");
  read_claims = λ json. if json == text "{}" then ok no_claims else err (foreign 2 ∷ []);
  header_text = toy_text;
  header_names = λ json. ok [];
  equal_fold = λ a b. a == b;
  certificate_key = λ c. err (foreign 3 ∷ []);
  check_certificate_chain = λ key chain. ok tt;
  check_header_certificates = λ key h. ok tt;
  policy = λ p key h. ok tt;
  rule = λ r token config. ok tt;
  issuance_rule = λ r token. (token, ok tt);
  time_now = pos 0;
}

abbrev suite : Suite
suite = record {
  decrypt_key = λ a encrypted_key key enc p. ok encrypted_key;
  decrypt = λ enc ciphertext cek iv aad tag.
      if tag == cek then ok (some ciphertext) else err (decryption_failed ∷ []);
  header_text = toy_text;
  header_names = λ json. ok [];
  inflate = λ o. (o, none);
}

abbrev sealer : Sealer
sealer = record {
  encrypt_key = λ a key enc p. ok (1 ∷ [], 1 ∷ [], key_parameters empty);
  wrap_key = λ n a cek key enc p. ok (cek, p);
  encrypt = λ enc plaintext cek iv aad. ok (plaintext, cek);
  random = λ draw n. ok [];
  same_key = λ a b. true;
  key_library = record {
    public_half = λ kind n. n;
    is_zero_public = λ n. false;
    is_zero_private = λ n. false;
    parameters = λ n. set44;
  };
  header_text = toy_text;
  header_names = λ json. ok [];
}

abbrev no_ids : IdStore (Unit {0})
no_ids = record { record_id = λ u id expiry. (u, ok true) }

abbrev secret : Key
secret = record {
  key_type = octet_sequence;
  public_key_use = [];
  operations = [];
  algorithm = none;
  id = [];
  material = some (octets (1 ∷ 2 ∷ []));
}

abbrev keys : Source (Unit {0})
keys = record { get = λ u. (u, ok (some (record { keys = some secret ∷ [] }))); refresh = none }

abbrev pending : SealedToken
pending = record {
  token = record {
    payload = record { claims = no_claims; encoded_payload = [] };
    signatures = [];
    pending = [];
    token_type = [];
    issuance_checks = [];
    authenticated_types = [];
    verified = false;
  };
  message = none;
  pending_encryption =
      some (record { algorithm = a128kw; encryption = a128gcm; key = some secret; options = [] });
}

abbrev run : SealedOutcome (Unit {0}) (Unit {0})
run =
    decrypt services sealer suite no_ids (λ t. err (foreign 4 ∷ [])) no_claims
      (new_decryption_config []) (some keys) tt tt pending

run_ok : run.result ≡ ok tt
unfolding decrypt new_decryption_config apply_decryption_options apply_options
    new_verification_config encrypt plaintext Encryption.encrypt encrypt_to content_encryption
    pending_header apply_header_options unprotected_enc encrypt_keys encrypt_one key_management
    is_key_encrypter is_key_decrypter is_verifier is_content_encrypter index keyed
    set_key_parameters ephemeral_key key_parameters seal check_headers check_recipients
    check_recipient recipient_members members Codec.marshal raw raw_fields check_critical
    unsupported has_duplicate check_base64 Base64Url.encode Codec.encode_octets set_encoded iv_size
    authenticated_data permitted_header check_permitted with_keys after_get after_attempt
    decrypt_with KeySet.key best_of suits rank suitable weight decryption_request key_operation
    Decryption.decrypt prepare_decryption try_recipients decrypt_entry decrypt_recipient
    message_key_parameters decompress read_plaintext is_nested equal_media_type qualify_media_type
    adopt_nested check_claims check_values apply_rules now is_expired is_early check_type
    check_types is_expected_type check_age check_replay
run_ok = refl

decrypt-Decrypted_example :
    Decrypted services sealer suite no_ids
      (λ t. err (foreign 4 ∷ []))
      no_claims
      (new_decryption_config [])
      (some keys)
      tt
      tt
      pending
      run
decrypt-Decrypted_example =
    decrypt-Decrypted services sealer suite no_ids (λ t. err (foreign 4 ∷ [])) no_claims
      (new_decryption_config []) (some keys) tt tt pending run_ok
