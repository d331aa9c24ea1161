-- ===== src/Jwe/Compact/RoundTrip.antt =====
-- Marshal of jwe/serialization.go gives back the text that Unmarshal read.
use golang_jwt_ci_test.Prelude.{
  ◌≡◌, refl, sym, ap, subst, ◌∙◌, [], ◌∷◌, ◌++◌, arith, Octets, ◌==◌, nat_same, list_same,
}
use golang_jwt_ci_test.Prelude.Dots.{dot, count_dots, cut, cut-append}
use golang_jwt_ci_test.Errors.{Result, Error, ok, err, guard, >>=-eq_ok}
use golang_jwt_ci_test.Base64Url
use golang_jwt_ci_test.Base64Url.Canonical.{decode_iff-encode}
use golang_jwt_ci_test.Header.Codec
use golang_jwt_ci_test.Header.Codec.{Text}
use golang_jwt_ci_test.Header.RoundTrip.{empty}
use golang_jwt_ci_test.Header.Kept.{kept_header}
use golang_jwt_ci_test.Jwe.Message.{Message}
use golang_jwt_ci_test.Jwe.Decryption.{malformed_or}
use golang_jwt_ci_test.Jwe.Compact.{
  encode_octets, decode_octets, join_parts, holds_header, marshal_one, marshal_recipients, marshal,
  unmarshal_parts, unmarshal,
}

decode_octets-eq : (encoded : Octets) → decode_octets encoded ≡ Base64Url.decode encoded
unfolding decode_octets Base64Url.decode
decode_octets-eq [] = refl
decode_octets-eq (c ∷ rest) = refl

unwrapped : {A : Type 0} (r : Result A) {a : A} → malformed_or r ≡ ok a → r ≡ ok a
unwrapped (ok x) h = h
unwrapped (err e) h = cc

decoded :
    (encoded octets : Octets)
    → malformed_or (decode_octets encoded) ≡ ok octets
    → encode_octets octets ≡ encoded
unfolding encode_octets
decoded encoded octets h =
    ((decode_iff-encode encoded octets).0
      (sym (decode_octets-eq encoded) ∙ unwrapped (decode_octets encoded) h)).0

-- The five parts of a text with four dots.
cut_parts :
    (t : Octets)
    → count_dots t ≡ 4
    → join_parts
        (cut t).0
        (cut (cut t).1).0
        (cut (cut (cut t).1).1).0
        (cut (cut (cut (cut t).1).1).1).0
        (cut (cut (cut (cut t).1).1).1).1
      ≡ t
unfolding join_parts
cut_parts t h =
    let first = cut-append t (ground (arith, h)) in
    let second = cut-append (cut t).1 (ground (arith, h, first.1)) in
    let third = cut-append (cut (cut t).1).1 (ground (arith, h, first.1, second.1)) in
    let fourth =
      cut-append (cut (cut (cut t).1).1).1 (ground (arith, h, first.1, second.1, third.1)) in
    ap (λ x. (cut t).0 ++ dot ∷ ((cut (cut t).1).0 ++ dot ∷ ((cut (cut (cut t).1).1).0 ++ dot ∷ x)))
      fourth.0
    ∙ ap (λ x. (cut t).0 ++ dot ∷ ((cut (cut t).1).0 ++ dot ∷ x)) third.0
    ∙ ap (λ x. (cut t).0 ++ dot ∷ x) second.0
    ∙ first.0

module _ (t : Text) where
  message_of : Message → Result Message → Message
  message_of m (ok found) = found
  message_of m (err e) = m

  marshal-parts :
      (a b c d e : Octets) (m : Message) {x : Error}
      → t.read_json [] ≡ err x
      → unmarshal_parts t a b c d e ≡ ok m
      → marshal t m ≡ ok (join_parts a b c d e)
  unfolding unmarshal_parts marshal marshal_recipients marshal_one holds_header message_of
  marshal-parts a b c d e m r q =
      let (h, p, q1) = >>=-eq_ok (Codec.unmarshal t empty a) _ q in
      let (key, kb, q2) = >>=-eq_ok (malformed_or (decode_octets b)) _ q1 in
      let (iv, kc, q3) = >>=-eq_ok (malformed_or (decode_octets c)) _ q2 in
      let (text, kd, q4) = >>=-eq_ok (malformed_or (decode_octets d)) _ q3 in
      let (tag, ke, q5) = >>=-eq_ok (malformed_or (decode_octets e)) _ q4 in
      subst (λ m. marshal t m ≡ ok (join_parts a b c d e)) (ap (message_of m) q5)
        (ground (
          arith,
          kept_header t a h r p,
          decoded b key kb,
          decoded c iv kc,
          decoded d text kd,
          decoded e tag ke,
        ))

  -- Marshal of a message that Unmarshal read gives back the text that it was read from, octet by
  -- octet, where the JSON decoder refuses the empty text for a header.
  pub marshal-unmarshal_message :
      (encoded : Octets) (m : Message) (x : Error)
      → t.read_json [] ≡ err x
      → unmarshal t encoded ≡ ok m
      → marshal t m ≡ ok encoded
  unfolding unmarshal
  marshal-unmarshal_message encoded m x r h =
      let (u, g, h1) = >>=-eq_ok (guard (count_dots encoded == 4) _) _ h in
      marshal-parts _ _ _ _ _ m r h1 ∙ ap ok (cut_parts encoded (ground (arith, g)))
