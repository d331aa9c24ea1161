-- ===== src/Jwe/Decryption/Size.antt =====
-- How many octets the decompression of jwe/jwe.go gives.
use golang_jwt_ci_test.Prelude.{
  ℕ, ◌+◌, ◌≤◌, ◌≡◌, ◌≢◌, ◌↔◌, inl, inr, refl, ap, sym, ◌∙◌, Bool, true, false, not, none, some, [],
  ◌∷◌, arith, Octets, if◌then◌else◌, length, ltb, lt→ltb, ltb→lt, ◌==◌, nat_same, list_same,
  list_eqb_iff, Bool-cases,
}
use golang_jwt_ci_test.Errors.{Result, Error, ok, err, ◌>>=◌, ◌>>◌, guard, oversized_plaintext}
use golang_jwt_ci_test.Streams.{Stream, read_limited, read_limited_iff}
use golang_jwt_ci_test.Header.Fields.{Header}
use golang_jwt_ci_test.Jwe.Decryption.{
  Slice, Suite, decompress, malformed_or, maximum_plaintext_size, deflate, contents,
}

-- The stream holds these octets, fits the limit, and ends with no error.
abbrev pub Holds : ℕ → Stream → Octets → Type 0
Holds limit stream octets = (stream ≡ (octets, none)) × (length octets ≤ limit)

abbrev within : ℕ → Stream → Result Slice
within limit stream = do
  octets ← malformed_or (read_limited (limit + 1) stream)
  guard (not (ltb limit (length octets))) (oversized_plaintext ∷ [])
  ok (some octets)

from_some : {a b : Octets} → ◌≡◌ {A = Result Slice} (ok (some a)) (ok (some b)) → a ≡ b
from_some h = cc

sized :
    (limit : ℕ) (o octets : Octets)
    → (guard (not (ltb limit (length o))) (oversized_plaintext ∷ []) >> ok (some o))
      ≡ ok (some octets)
    → (o ≡ octets) × (length o ≤ limit)
sized limit o octets h = elim (Bool-cases (ltb limit (length o))) [
  | inl p ↦ absurd (ground (arith, p, h))
  | inr p ↦ (from_some (ground (arith, p, h)), ground (arith, p, lt→ltb limit (length o)))
]

within-Holds :
    (limit : ℕ) (stream : Stream) (octets : Octets) (r : Result Octets)
    → r ≡ read_limited (limit + 1) stream
    → (malformed_or r >>= λ o.
        guard (not (ltb limit (length o))) (oversized_plaintext ∷ []) >> ok (some o))
      ≡ ok (some octets)
    → Holds limit stream octets
within-Holds limit stream octets (err e) q h = absurd (cc)
within-Holds limit stream octets (ok o) q h =
    let (same, small) = sized limit o octets h in
    (read_limited_iff limit stream octets).0
      (sym q ∙ ap ok same, omega (arith, small, ap length same))

Holds-within :
    (limit : ℕ) (stream : Stream) (octets : Octets)
    → Holds limit stream octets
    → within limit stream ≡ ok (some octets)
Holds-within limit stream octets h =
    let (r, small) = (read_limited_iff limit stream octets).1 h in
    let fits : ltb limit (length octets) ≡ false =
      ground (arith, small, ltb→lt limit (length octets)) in
    ground (arith, r, fits)

chosen :
    (empty matches : Bool) (e : Error) (plain inflated : Result Slice) {x : Slice}
    → empty ≡ false
    → (if empty then plain else (guard matches e >> inflated)) ≡ ok x
    → (matches ≡ true) × (inflated ≡ ok x)
chosen true matches e plain inflated n h = absurd (cc)
chosen false true e plain inflated n h = (refl, h)
chosen false false e plain inflated n h = absurd (cc)

inflates :
    (empty matches : Bool) (e : Error) (plain inflated : Result Slice) {x : Slice}
    → empty ≡ false
    → matches ≡ true
    → inflated ≡ ok x
    → (if empty then plain else (guard matches e >> inflated)) ≡ ok x
inflates empty matches e plain inflated n m h = ground (arith, n, m, h)

-- Decompression of a "zip" that is not empty gives octets exactly when the "zip" is "DEF" and they are
-- all that the stream holds, which ends without an error, and are at most 2^24 in number.
pub decompress_iff :
    (s : Suite) (protected_header : Header) (plaintext : Slice) (octets : Octets)
    → protected_header.compression_algorithm ≢ []
    → (decompress s protected_header plaintext ≡ ok (some octets)) ↔ (
        (protected_header.compression_algorithm ≡ deflate)
        × Holds maximum_plaintext_size (s.inflate (contents plaintext)) octets)
unfolding decompress
decompress_iff s h plaintext octets n =
    let c = h.compression_algorithm in
    let named : (c == []) ≡ false = ground (arith, n, list_eqb_iff c []) in
    (
      λ q.
          let (d, w) = chosen (c == []) (c == deflate) _ _ _ named q in
          (
            (list_eqb_iff c deflate).0 d,
            within-Holds maximum_plaintext_size (s.inflate (contents plaintext)) octets _ refl w,
          ),
      λ (d, k).
          inflates (c == []) (c == deflate) _ _ _ named ((list_eqb_iff c deflate).1 d)
            (Holds-within maximum_plaintext_size (s.inflate (contents plaintext)) octets k),
    )
