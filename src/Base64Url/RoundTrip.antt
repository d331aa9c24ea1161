-- ===== src/Base64Url/RoundTrip.antt =====
-- What the encoder of internal/base64url/base64url.go writes, its decoder reads back.
use golang_jwt_ci_test.Prelude.{
  ◌+◌, ◌*◌, ◌/◌, ◌%◌, ◌≡◌, refl, false, [], ◌∷◌, arith, Octets, contains_func,
}
use golang_jwt_ci_test.Errors.{ok}
use golang_jwt_ci_test.Base64Url.{
  url, encode_quanta, decode_raw, is_line_break, drop_line_breaks, encode, decode, IsOctets,
}
use golang_jwt_ci_test.Base64Url.Quanta.{encode_symbol-no_break, value-encode_symbol}

decode_raw-encode_quanta : (xs : Octets) → IsOctets xs → decode_raw (encode_quanta xs) ≡ ok xs
unfolding encode_quanta decode_raw
decode_raw-encode_quanta [] h = refl
decode_raw-encode_quanta (a ∷ []) h =
    rw
      (
        value-encode_symbol url (a / 4) (omega arith),
        value-encode_symbol url (a % 4 * 16) (omega arith),
      )
      (ground arith)
decode_raw-encode_quanta (a ∷ b ∷ []) h =
    rw
      (
        value-encode_symbol url (a / 4) (omega arith),
        value-encode_symbol url (a % 4 * 16 + b / 16) (omega arith),
        value-encode_symbol url (b % 16 * 4) (omega arith),
      )
      (ground arith)
decode_raw-encode_quanta (a ∷ b ∷ c ∷ rest) h =
    rw
      (
        value-encode_symbol url (a / 4) (omega arith),
        value-encode_symbol url (a % 4 * 16 + b / 16) (omega arith),
        value-encode_symbol url (b % 16 * 4 + c / 64) (omega arith),
        value-encode_symbol url (c % 64) (omega arith),
        decode_raw-encode_quanta rest (h.1.1.1),
      )
      (ground arith)

no_break-encode_quanta :
    (xs : Octets) → IsOctets xs → contains_func is_line_break (encode_quanta xs) ≡ false
unfolding encode_quanta
no_break-encode_quanta [] h = refl
no_break-encode_quanta (a ∷ []) h = ground (
  arith,
  encode_symbol-no_break (a / 4) (omega arith),
  encode_symbol-no_break (a % 4 * 16) (omega arith),
)
no_break-encode_quanta (a ∷ b ∷ []) h = ground (
  arith,
  encode_symbol-no_break (a / 4) (omega arith),
  encode_symbol-no_break (a % 4 * 16 + b / 16) (omega arith),
  encode_symbol-no_break (b % 16 * 4) (omega arith),
)
no_break-encode_quanta (a ∷ b ∷ c ∷ rest) h =
    rw
      (
        encode_symbol-no_break (a / 4) (omega arith),
        encode_symbol-no_break (a % 4 * 16 + b / 16) (omega arith),
        encode_symbol-no_break (b % 16 * 4 + c / 64) (omega arith),
        encode_symbol-no_break (c % 64) (omega arith),
      )
      (no_break-encode_quanta rest (h.1.1.1))

-- Where there is no line break, the decoder drops nothing.
pub drop_line_breaks-eq_self :
    (s : Octets) → contains_func is_line_break s ≡ false → drop_line_breaks s ≡ s
unfolding drop_line_breaks
drop_line_breaks-eq_self [] h = refl
drop_line_breaks-eq_self (c ∷ cs) h = ground (arith, drop_line_breaks-eq_self cs)

-- Every octet string is read back from its encoding.
pub decode-encode : (octets : Octets) → IsOctets octets → decode (encode octets) ≡ ok octets
unfolding decode encode
decode-encode xs h =
    rw
      (
        no_break-encode_quanta xs h,
        drop_line_breaks-eq_self (encode_quanta xs) (no_break-encode_quanta xs h),
      )
      (decode_raw-encode_quanta xs h)
