-- ===== src/Base64Url.antt =====
-- internal/base64url/base64url.go, with the encoder and the strict decoder of encoding/base64 that
-- it calls. An octet is a number below 256. The buffer pool changes no result and is left out. On
-- an error the Go decoder also returns the octets that it read; no caller in the module reads them.
pub mod Quanta
pub mod RoundTrip
pub mod Canonical
mod Tests
use golang_jwt_ci_test.Prelude.{
  ℕ, ◌+◌, ◌-◌, ◌*◌, ◌/◌, ◌%◌, ◌<◌, Bool, true, false, ◌||◌, not, ◌&&◌, Option, none, some, List, [],
  ◌∷◌, ltb, leb, eqb, if◌then◌else◌, Octets, All, contains_func,
}
use golang_jwt_ci_test.Errors.{
  Result, ok, err, ◌>>=◌, ◌>>◌, guard, or_fail, line_break, corrupt_input,
}

-- base64.URLEncoding and base64.StdEncoding differ in the symbols of 62 and 63.
pub data Alphabet : Type 0 where
  url standard : Alphabet

abbrev pub symbol62 : Alphabet → ℕ
symbol62 url = b'-'
symbol62 standard = b'+'

abbrev pub symbol63 : Alphabet → ℕ
symbol63 url = b'_'
symbol63 standard = b'/'

pub encode_symbol : Alphabet → ℕ → ℕ
encode_symbol alphabet v =
    if ltb v 26
    then v + 65
    else if ltb v 52
    then v + 71
    else if ltb v 62
    then v - 4
    else if eqb v 62
    then symbol62 alphabet
    else symbol63 alphabet

pub decode_symbol : Alphabet → ℕ → Option ℕ
decode_symbol alphabet c =
    if leb 65 c && leb c 90
    then some (c - 65)
    else if leb 97 c && leb c 122
    then some (c - 71)
    else if leb 48 c && leb c 57
    then some (c + 4)
    else if eqb c (symbol62 alphabet)
    then some 62
    else if eqb c (symbol63 alphabet)
    then some 63
    else none

-- base64.RawURLEncoding.AppendEncode: three octets to four symbols, a rest of one or two octets to
-- two or three symbols, and no padding.
pub encode_quanta : Octets → Octets
encode_quanta [] = []
encode_quanta (a ∷ []) = encode_symbol url (a / 4) ∷ encode_symbol url (a % 4 * 16) ∷ []
encode_quanta (a ∷ b ∷ []) =
    encode_symbol url (a / 4)
    ∷ encode_symbol url (a % 4 * 16 + b / 16)
    ∷ encode_symbol url (b % 16 * 4)
    ∷ []
encode_quanta (a ∷ b ∷ c ∷ rest) =
    encode_symbol url (a / 4)
    ∷ encode_symbol url (a % 4 * 16 + b / 16)
    ∷ encode_symbol url (b % 16 * 4 + c / 64)
    ∷ encode_symbol url (c % 64)
    ∷ encode_quanta rest

pub value : Alphabet → ℕ → Result ℕ
unfolding decode_symbol
value alphabet c = or_fail (decode_symbol alphabet c) (corrupt_input ∷ [])

-- The last quantum of one or two octets. Strict rejects bits that no octet holds.
abbrev pub last_one : Alphabet → ℕ → ℕ → Result Octets
last_one alphabet p q = do
  v ← value alphabet p
  w ← value alphabet q
  guard (eqb (w % 16) 0) (corrupt_input ∷ [])
  ok ((v * 4 + w / 16) ∷ [])

abbrev pub last_two : Alphabet → ℕ → ℕ → ℕ → Result Octets
last_two alphabet p q r = do
  v ← value alphabet p
  w ← value alphabet q
  x ← value alphabet r
  guard (eqb (x % 4) 0) (corrupt_input ∷ [])
  ok ((v * 4 + w / 16) ∷ (w % 16 * 16 + x / 4) ∷ [])

abbrev pub full : Alphabet → ℕ → ℕ → ℕ → ℕ → Result (Octets → Octets)
full alphabet p q r s = do
  v ← value alphabet p
  w ← value alphabet q
  x ← value alphabet r
  y ← value alphabet s
  ok (λ rest. (v * 4 + w / 16) ∷ (w % 16 * 16 + x / 4) ∷ (x % 4 * 64 + y) ∷ rest)

-- base64.RawURLEncoding.Strict().DecodeString, past the line breaks that it drops.
pub decode_raw : Octets → Result Octets
decode_raw [] = ok []
decode_raw (p ∷ []) = err (corrupt_input ∷ [])
decode_raw (p ∷ q ∷ []) = last_one url p q
decode_raw (p ∷ q ∷ r ∷ []) = last_two url p q r
decode_raw (p ∷ q ∷ r ∷ s ∷ rest) =
    let tail = decode_raw rest in do quantum ← full url p q r s; octets ← tail; ok (quantum octets)

abbrev padding : ℕ
padding = b'='

-- base64.StdEncoding.Strict().DecodeString: only whole quanta, padding at the end alone.
pub decode_padded : Octets → Result Octets
decode_padded [] = ok []
decode_padded (p ∷ q ∷ r ∷ s ∷ []) =
    if eqb r padding && eqb s padding
    then last_one standard p q
    else if eqb s padding
    then last_two standard p q r
    else do quantum ← full standard p q r s; ok (quantum [])
decode_padded (p ∷ q ∷ r ∷ s ∷ rest) =
    let tail = decode_padded rest in
    do quantum ← full standard p q r s; octets ← tail; ok (quantum octets)
decode_padded _ = err (corrupt_input ∷ [])

pub is_line_break : ℕ → Bool
is_line_break c = eqb c 13 || eqb c 10

-- The Go decoder passes over CR and LF wherever they stand.
pub drop_line_breaks : Octets → Octets
unfolding is_line_break
drop_line_breaks [] = []
drop_line_breaks (c ∷ cs) =
    let rest = drop_line_breaks cs in if is_line_break c then rest else c ∷ rest

pub check_alphabet : Octets → Result (Unit {0})
unfolding is_line_break
check_alphabet encoded = guard (not (contains_func is_line_break encoded)) (line_break ∷ [])

unfoldable pub encode : Octets → Octets
unfolding encode_quanta encode_symbol
encode octets = encode_quanta octets

unfoldable pub decode : Octets → Result Octets
unfolding check_alphabet drop_line_breaks decode_raw value
decode encoded = do check_alphabet encoded; decode_raw (drop_line_breaks encoded)

unfoldable pub decode_standard : Octets → Result Octets
unfolding check_alphabet drop_line_breaks decode_padded value
decode_standard encoded = do check_alphabet encoded; decode_padded (drop_line_breaks encoded)

abbrev pub IsOctets : Octets → Type 0
IsOctets = All (λ c. c < 256)
