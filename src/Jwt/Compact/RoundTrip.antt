-- ===== src/Jwt/Compact/RoundTrip.antt =====
-- Marshal of token.go gives back the text that Unmarshal read.
use golang_jwt_ci_test.Prelude.{
  ◌≡◌, inl, inr, ap, ◌∙◌, subst, Bool, true, false, some, [], ◌∷◌, ◌++◌, arith, Octets, ◌==◌,
  nat_same, list_same, if◌then◌else◌, Bool-cases,
}
use golang_jwt_ci_test.Prelude.Dots.{dot, count_dots, cut, cut-append}
use golang_jwt_ci_test.Errors.{Result, Error, ok, err, ◌>>=◌, guard, >>=-eq_ok}
use golang_jwt_ci_test.Base64Url
use golang_jwt_ci_test.Base64Url.Canonical.{decode_iff-encode}
use golang_jwt_ci_test.Header.Fields.{Header}
use golang_jwt_ci_test.Header.Codec
use golang_jwt_ci_test.Header.RoundTrip.{empty}
use golang_jwt_ci_test.Header.Kept.{decode_empty, kept_header}
use golang_jwt_ci_test.Jws.{Signature, signature_text, check_content_encryption}
use golang_jwt_ci_test.Jws
use golang_jwt_ci_test.Jwt.Token.{Payload, Token, Services}
use golang_jwt_ci_test.Jwt.Signing.{marshal_payload, sign, sign_each}
use golang_jwt_ci_test.Jwt.Compact.{
  new_signature, new_token, unmarshal_payload, unmarshal_parts, unmarshal_signed, marshal_one,
  marshal_signatures, marshal, unmarshal, signed, encrypted,
}

-- Only the branch of three parts gives a signed token.
three_parts :
    {Message : Type 0} (b : Bool) (m : Result Message) (r : Result Token) (token : Token)
    → (if b then (m >>= λ message. ok (encrypted message)) else (r >>= λ found. ok (signed found)))
      ≡ ok (signed token)
    → r ≡ ok token
three_parts true (err e) r token h = ground arith
three_parts true (ok message) r token h = ground arith
three_parts false m (err e) token h = ground arith
three_parts false m (ok found) token h = ground arith

module _ (s : Services) where
  -- A text that is not empty is kept.
  decoded_payload :
      (encoded_payload : Octets) (payload : Payload) {e : Error}
      → s.read_claims [] ≡ err e
      → unmarshal_payload s encoded_payload ≡ ok payload
      → marshal_payload s payload ≡ ok encoded_payload
  unfolding unmarshal_payload marshal_payload
  decoded_payload encoded_payload payload r h =
      let (json, d, h1) = >>=-eq_ok (Base64Url.decode encoded_payload) _ h in
      let (claims, c, h2) = >>=-eq_ok (s.read_claims json) _ h1 in
      elim (Bool-cases (encoded_payload == [])) [
        | inl q ↦ ground (arith, r, ap s.read_claims (decode_empty encoded_payload json q d))
        | inr q ↦ ground (arith, h2, q)
      ]

  decoded_signature :
      (encoded_header encoded_signature : Octets) (signature : Signature) {e : Error}
      → s.header_text.read_json [] ≡ err e
      → Jws.unmarshal s.header_text s.header_names new_signature encoded_header encoded_signature
        ≡ ok signature
      → (h : Header) × (signature.protected_header ≡ some h)
        × (Codec.marshal s.header_text h ≡ ok encoded_header)
        × (signature_text signature ≡ encoded_signature)
  unfolding Jws.unmarshal signature_text
  decoded_signature encoded_header encoded_signature signature r h =
      let (p, d, h1) = >>=-eq_ok (Codec.unmarshal s.header_text empty encoded_header) _ h in
      let (u, c, h2) = >>=-eq_ok (check_content_encryption (some p ∷ [])) _ h1 in
      let (o, f, h3) = >>=-eq_ok (Base64Url.decode encoded_signature) _ h2 in
      let q : signature.signature ≡ o = ground (arith, h3) in
      (
        p,
        ground (arith, h3),
        kept_header s.header_text encoded_header p r d,
        ap Base64Url.encode q ∙ ((decode_iff-encode encoded_signature o).0 f).0,
      )

  marshal_new :
      (payload : Payload) (signature : Signature) (h : Header) (a b : Octets)
      → signature.protected_header ≡ some h
      → Codec.marshal s.header_text h ≡ ok a
      → marshal_payload s payload ≡ ok b
      → (marshal s (new_token payload signature)).1
        ≡ ok (a ++ dot ∷ (b ++ dot ∷ signature_text signature))
  unfolding marshal sign sign_each marshal_signatures marshal_one
  marshal_new payload signature h a b q m p = ground (arith, q, m, p)

  token_of : Token → Result Token → Token
  token_of t (ok found) = found
  token_of t (err e) = t

  marshal-parts :
      (encoded_header encoded_payload encoded_signature : Octets) (token : Token) {e e' : Error}
      → s.header_text.read_json [] ≡ err e
      → s.read_claims [] ≡ err e'
      → unmarshal_parts s encoded_header encoded_payload encoded_signature ≡ ok token
      → (marshal s token).1
        ≡ ok (encoded_header ++ dot ∷ (encoded_payload ++ dot ∷ encoded_signature))
  unfolding unmarshal_parts token_of
  marshal-parts encoded_header encoded_payload encoded_signature token r r' h =
      let (signature, u, h1) =
        >>=-eq_ok
          (Jws.unmarshal s.header_text s.header_names new_signature encoded_header
            encoded_signature)
          _ h in
      let (payload, p, h2) = >>=-eq_ok (unmarshal_payload s encoded_payload) _ h1 in
      let (header, q, m, t) = decoded_signature encoded_header encoded_signature signature r u in
      let made =
        marshal_new payload signature header encoded_header encoded_payload q m
          (decoded_payload encoded_payload payload r' p) in
      subst
        (λ k.
          (marshal s k).1
          ≡ ok (encoded_header ++ dot ∷ (encoded_payload ++ dot ∷ encoded_signature)))
        (ap (token_of token) h2)
        (made ∙ ap (λ x. ok (encoded_header ++ dot ∷ (encoded_payload ++ dot ∷ x))) t)

  marshal-unmarshal_signed :
      (encoded_token : Octets) (token : Token) (e e' : Error)
      → s.header_text.read_json [] ≡ err e
      → s.read_claims [] ≡ err e'
      → unmarshal_signed s encoded_token ≡ ok token
      → (marshal s token).1 ≡ ok encoded_token
  unfolding unmarshal_signed
  marshal-unmarshal_signed encoded_token token e e' r r' h =
      let (u, g, h1) = >>=-eq_ok (guard (count_dots encoded_token == 2) _) _ h in
      let n : count_dots encoded_token ≡ 2 = ground (arith, g) in
      let first = cut-append encoded_token (ground (arith, n)) in
      let second = cut-append (cut encoded_token).1 (ground (arith, n, first.1)) in
      marshal-parts _ _ _ token r r' h1
      ∙ ap (λ x. ok ((cut encoded_token).0 ++ dot ∷ x)) second.0
      ∙ ap ok first.0

  -- Marshal of a signed token that Unmarshal read gives back the text that it was read from, octet by
  -- octet, where the JSON decoder refuses the empty text for a header and for a payload.
  pub marshal-unmarshal :
      {Message : Type 0} (unmarshal_message : Octets → Result Message) (encoded_token : Octets)
      (token : Token) (e e' : Error)
      → s.header_text.read_json [] ≡ err e
      → s.read_claims [] ≡ err e'
      → unmarshal s unmarshal_message encoded_token ≡ ok (signed token)
      → (marshal s token).1 ≡ ok encoded_token
  unfolding unmarshal
  marshal-unmarshal unmarshal_message encoded_token token e e' r r' h =
      marshal-unmarshal_signed encoded_token token e e' r r' (
        three_parts (count_dots encoded_token == 4) (unmarshal_message encoded_token)
          (unmarshal_signed s encoded_token) token h)
