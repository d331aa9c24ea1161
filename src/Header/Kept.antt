-- ===== src/Header/Kept.antt =====
-- A header of header/header.go that Unmarshal read is written back as the text that it came in.
use golang_jwt_ci_test.Prelude.{
  ◌≡◌, ap, [], ◌∷◌, arith, true, Octets, ◌==◌, nat_same, list_same, Bool-cases, inl, inr,
}
use golang_jwt_ci_test.Errors.{Error, ok, err, >>=-eq_ok}
use golang_jwt_ci_test.Base64Url
use golang_jwt_ci_test.Header.Fields.{Header}
use golang_jwt_ci_test.Header.Codec.{Text}
use golang_jwt_ci_test.Header.Codec
use golang_jwt_ci_test.Header.RoundTrip.{empty}

pub decode_empty :
    (t octets : Octets) → (t == []) ≡ true → Base64Url.decode t ≡ ok octets → octets ≡ []
unfolding Base64Url.decode
decode_empty [] octets e h = ground arith
decode_empty (c ∷ t) octets e h = ground arith

pub kept_header :
    (t : Text) (encoded_header : Octets) (h : Header) {e : Error}
    → t.read_json [] ≡ err e
    → Codec.unmarshal t empty encoded_header ≡ ok h
    → Codec.marshal t h ≡ ok encoded_header
unfolding Codec.unmarshal Codec.unmarshal_json Codec.marshal
kept_header t encoded_header h r q =
    let (json, d, q1) = >>=-eq_ok (Base64Url.decode encoded_header) _ q in
    let (h', c, q2) = >>=-eq_ok (Codec.unmarshal_json t empty json) _ q1 in
    elim (Bool-cases (encoded_header == [])) [
      | inl i ↦
          let (fields, f, c1) = >>=-eq_ok (t.read_json json) _ c in
          ground (arith, r, f, ap t.read_json (decode_empty encoded_header json i d))
      | inr i ↦ ground (arith, q2, i)
    ]
