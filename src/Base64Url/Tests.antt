-- ===== src/Base64Url/Tests.antt =====
-- Runs of the coder, and the coder's theorem at an input.
use golang_jwt_ci_test.Prelude.{◌≡◌, refl, [], ◌∷◌, text}
use golang_jwt_ci_test.Errors.{ok, err, line_break, corrupt_input}
use golang_jwt_ci_test.Base64Url.{encode, decode, decode_standard, IsOctets}
use golang_jwt_ci_test.Base64Url.Canonical.{decode_iff-encode}

encode_two : encode (0xfb ∷ 0xff ∷ []) ≡ text "-_8"
unfolding encode
encode_two = refl

decode_two : decode (text "-_8") ≡ ok (0xfb ∷ 0xff ∷ [])
unfolding decode
decode_two = refl

-- The last symbol holds bits of no octet.
decode_loose : decode (text "-_9") ≡ err (corrupt_input ∷ [])
unfolding decode
decode_loose = refl

decode_broken : decode (10 ∷ text "-_8") ≡ err (line_break ∷ [])
unfolding decode
decode_broken = refl

decode_standard_padded : decode_standard (text "+/8=") ≡ ok (0xfb ∷ 0xff ∷ [])
unfolding decode_standard
decode_standard_padded = refl

decode_standard_unpadded : decode_standard (text "+/8") ≡ err (corrupt_input ∷ [])
unfolding decode_standard
decode_standard_unpadded = refl

decode_iff-encode_example : (encode (0xfb ∷ 0xff ∷ []) ≡ text "-_8") × IsOctets (0xfb ∷ 0xff ∷ [])
decode_iff-encode_example = (decode_iff-encode (text "-_8") (0xfb ∷ 0xff ∷ [])).0 decode_two
