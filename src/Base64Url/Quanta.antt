-- ===== src/Base64Url/Quanta.antt =====
-- One symbol and one quantum of the base64url code.
use golang_jwt_ci_test.Prelude.{ℕ, ◌<◌, ◌≡◌, false, some, arith}
use golang_jwt_ci_test.Errors.{ok}
use golang_jwt_ci_test.Base64Url.{Alphabet, url, encode_symbol, decode_symbol, value, is_line_break}

pub decode-encode_symbol :
    (a : Alphabet) (v : ℕ) → v < 64 → decode_symbol a (encode_symbol a v) ≡ some v
unfolding encode_symbol decode_symbol
decode-encode_symbol a v h = ground arith

pub encode-decode_symbol :
    (a : Alphabet) (c v : ℕ) → decode_symbol a c ≡ some v → (encode_symbol a v ≡ c) × (v < 64)
unfolding encode_symbol decode_symbol
encode-decode_symbol a c v h = (ground arith, ground arith)

pub encode_symbol-no_break : (v : ℕ) → v < 64 → is_line_break (encode_symbol url v) ≡ false
unfolding encode_symbol is_line_break
encode_symbol-no_break v h = ground arith

pub value-encode_symbol : (a : Alphabet) (v : ℕ) → v < 64 → value a (encode_symbol a v) ≡ ok v
unfolding value
value-encode_symbol a v h = rw (decode-encode_symbol a v h)

pub value-eq_ok : (a : Alphabet) (c v : ℕ) → value a c ≡ ok v → (encode_symbol a v ≡ c) × (v < 64)
unfolding value
value-eq_ok a c v h = encode-decode_symbol a c v (ground arith)
