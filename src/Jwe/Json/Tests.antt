-- ===== src/Jwe/Json/Tests.antt =====
-- A recipient of a JSON document whose header names an unknown algorithm.
use golang_jwt_ci_test.Prelude.{◌≡◌, refl, none, some, [], ◌∷◌, text}
use golang_jwt_ci_test.Errors.{ok, err, unsupported_algorithm}
use golang_jwt_ci_test.Base64Url
use golang_jwt_ci_test.Header.Codec.{Text}
use golang_jwt_ci_test.Header.Codec
use golang_jwt_ci_test.Header.RoundTrip.{empty}
use golang_jwt_ci_test.Jwe.Message.{Recipient}
use golang_jwt_ci_test.Jwe.Compact.{decode_octets}
use golang_jwt_ci_test.Jwe.Json.{RawRecipient, decode_recipient, encode_recipient_header}
use golang_jwt_ci_test.Jwe.Json.Recipients.{encode_recipient_header-decode_recipient}

abbrev unknown : Text
unknown = record {
  write_json = λ r. [];
  read_json = λ json. err (unsupported_algorithm ∷ []);
  url_string = λ u. [];
  url_parse = λ u. ok 0;
}

abbrev given : RawRecipient
given = record { header = text "{\"alg\":\"future\"}"; encrypted_key = text "AQ" }

abbrev kept : Recipient
kept = record {
  header = none;
  encrypted_key = 1 ∷ [];
  raw_header = given.header;
  unsupported = some (unsupported_algorithm ∷ []);
}

given-kept : decode_recipient unknown given ≡ ok kept
unfolding decode_recipient decode_octets Base64Url.decode Codec.unmarshal_json
given-kept = refl

encode_recipient_header-decode_recipient_example :
    (encode_recipient_header unknown kept ≡ ok given.header)
    × (Codec.unmarshal_json unknown empty given.header ≡ err (unsupported_algorithm ∷ []))
encode_recipient_header-decode_recipient_example =
    encode_recipient_header-decode_recipient unknown given given-kept refl
