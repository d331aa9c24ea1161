-- ===== src/Streams.antt =====
-- Octets from a reader: io.ReadAll over io.LimitReader, as jwe/jwe.go and jwk/remote/remote.go read.
use golang_jwt_ci_test.Prelude.{
  ℕ, ◌+◌, ◌≤◌, ◌≡◌, ◌↔◌, inl, inr, refl, Bool, true, false, not, Option, none, some, arith, Octets,
  if◌then◌else◌, length, take, ltb, length-take, take-eq_self, lt→ltb, ltb→lt, Bool-cases, not, inl,
  inr, ap, sym, ◌∙◌,
}
use golang_jwt_ci_test.Errors.{from_ok, Result, Error, ok, err, guard, ◌>>◌}

-- The octets that a reader gives, and the error after them; `none` is the end of the stream.
abbrev pub Stream : Type 0
Stream = Octets × Option Error

-- io.ReadAll over a LimitReader: the error after the octets is seen only where they are not enough.
unfoldable pub read_limited : ℕ → Stream → Result Octets
read_limited limit (octets, none) = ok (take limit octets)
read_limited limit (octets, some e) =
    if ltb (length octets) limit then err e else ok (take limit octets)

-- An octet past the limit is the last that is taken.
fits :
    (limit : ℕ) (o octets : Octets)
    → take (limit + 1) o ≡ octets
    → length octets ≤ limit
    → length o ≤ limit
fits limit o octets h k = omega (arith, length-take (limit + 1) o, ap length h, k)

enough :
    (b : Bool) (e : Error) {t octets : Octets}
    → (if b then err e else ok t) ≡ ok octets
    → (b ≡ false) × (t ≡ octets)
enough true e h = absurd (cc)
enough false e h = (refl, from_ok h)

-- Reading one octet past a limit tells a stream that fits it: what is read fits the limit exactly when
-- it is the whole of a stream that ends without an error.
pub read_limited_iff :
    (limit : ℕ) (stream : Stream) (octets : Octets)
    → ((read_limited (limit + 1) stream ≡ ok octets) × (length octets ≤ limit))
      ↔ ((stream ≡ (octets, none)) × (length octets ≤ limit))
unfolding read_limited
read_limited_iff limit (o, none) octets = (
  λ (h, k).
      let small : length o ≤ limit + 1 = omega (arith, fits limit o octets (from_ok h) k) in
      (ap (λ x. (x, none)) (sym (take-eq_self (limit + 1) o small) ∙ from_ok h), k),
  λ (h, k).
      let small : length o ≤ limit + 1 = omega (arith, ap (λ z. length z.0) h, k) in
      (ap ok (take-eq_self (limit + 1) o small ∙ ap (λ z. z.0) h), k),
)
read_limited_iff limit (o, some e) octets = (
  λ (h, k).
      let (b, t) = enough (ltb (length o) (limit + 1)) e h in
      let small : length o ≤ limit = fits limit o octets t k in
      absurd (ground (arith, b, small, lt→ltb (length o) (limit + 1))),
  λ (h, k). let clash : some e ≡ none = ap (λ z. z.1) h in absurd (cc),
)

-- The test of the number of octets that were read.
pub guard-within {ℓ} :
    {A : Type ℓ} (limit n : ℕ) (e : Error) (r : Result A) {a : A}
    → (guard (not (ltb limit n)) e >> r) ≡ ok a
    → (n ≤ limit) × (r ≡ ok a)
guard-within limit n e r h = elim (Bool-cases (ltb limit n)) [
  | inl over ↦ absurd (ground (arith, over, h))
  | inr fits ↦ (ground (arith, fits, lt→ltb limit n), ground (arith, fits, h))
]

pub within-guard {ℓ} :
    {A : Type ℓ} (limit n : ℕ) (e : Error) (r : Result A)
    → n ≤ limit
    → (guard (not (ltb limit n)) e >> r) ≡ r
within-guard limit n e r h = elim (Bool-cases (ltb limit n)) [
  | inl over ↦ absurd (ground (arith, over, h, ltb→lt limit n))
  | inr fits ↦ ground (arith, fits)
]
