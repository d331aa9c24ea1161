-- ===== src/Header/RoundTrip.antt =====
-- A header of header/header.go that is written and read back.
use golang_jwt_ci_test.Prelude.{
  ◌≡◌, ◌≢◌, refl, sym, ◌∙◌, true, false, Option, none, some, [], arith, Octets, ◌==◌, nat_same,
  list_same, list_eqb_iff, Bool-cases, inl, inr, subst,
}
use golang_jwt_ci_test.Prelude.Int.{pos}
use golang_jwt_ci_test.Errors.{ok, Result-cases}
use golang_jwt_ci_test.Base64Url
use golang_jwt_ci_test.Base64Url.{IsOctets}
use golang_jwt_ci_test.Base64Url.Canonical.{decode_iff-encode}
use golang_jwt_ci_test.Base64Url.RoundTrip.{decode-encode}
use golang_jwt_ci_test.Jwa.Algorithm.{Algorithm, name, is_content_encrypter}
use golang_jwt_ci_test.Jwa.Algorithm.Names.{by_name_iff-name, name_ne_nil}
use golang_jwt_ci_test.Jwk.Key.{is_private}
use golang_jwt_ci_test.Header.Critical.{check_critical}
use golang_jwt_ci_test.Header.Fields.{Header, RawHeader, Url}
use golang_jwt_ci_test.Header.Codec.{
  Text, encode_octets, decode_octets, raw, read_algorithm, read_url, read_encryption, from_raw,
  unmarshal_json, unmarshal, raw_fields, marshal, url_text, name_of,
}

-- new(header.Header)
abbrev pub empty : Header
empty = record {
  type_ = [];
  content_type = [];
  algorithm = none;
  jwk_set_url = none;
  jwk = none;
  key_id = [];
  x509_url = none;
  x509_certificate_chain = [];
  x509_certificate_sha1_thumbprint = [];
  x509_certificate_sha256_thumbprint = [];
  critical = [];
  encryption_algorithm = none;
  compression_algorithm = [];
  ephemeral_public_key = none;
  agreement_party_u_info = [];
  agreement_party_v_info = [];
  initialization_vector = [];
  authentication_tag = [];
  pbes2_salt_input = [];
  pbes2_count = pos 0;
  encoded_header = [];
  base64url_encode_payload = none;
}

-- The JSON codec writes this rawHeader as octets and reads it back from them.
pub record IsRead (t : Text) (r : RawHeader) : Type 0 where
  pub write_json-IsOctets : IsOctets (t.write_json r)
  pub read_json-write_json : t.read_json (t.write_json r) ≡ ok r

-- A URL that is present has a text, and its text parses to it.
abbrev pub IsUrl : Text → Option Url → Type 0
IsUrl t none = Unit
IsUrl t (some u) = (t.url_string u ≢ []) × (t.url_parse (t.url_string u) ≡ ok u)

-- The Go type jwa.ContentEncrypter of the field.
abbrev pub Encrypts : Option Algorithm → Type 0
Encrypts none = Unit
Encrypts (some a) = is_content_encrypter a ≡ true

-- A header whose values have the ranges of their Go types, with no private ephemeral key.
pub record IsWritable (t : Text) (h : Header) : Type 0 where
  pub jwk_set_url : IsUrl t h.jwk_set_url
  pub x509_url : IsUrl t h.x509_url
  pub encrypts : Encrypts h.encryption_algorithm
  pub public_only : is_private h.ephemeral_public_key ≡ false
  pub apu : IsOctets h.agreement_party_u_info
  pub apv : IsOctets h.agreement_party_v_info
  pub iv : IsOctets h.initialization_vector
  pub tag : IsOctets h.authentication_tag
  pub p2s : IsOctets h.pbes2_salt_input

decode_octets-encode_octets : (o : Octets) → IsOctets o → decode_octets (encode_octets o) ≡ ok o
unfolding decode_octets encode_octets Base64Url.encode
decode_octets-encode_octets o h = elim (Bool-cases (Base64Url.encode o == [])) [
  | inr e ↦ rw e (decode-encode o h)
  | inl e ↦
      let blank : Base64Url.encode o ≡ [] = (list_eqb_iff (Base64Url.encode o) []).0 e in
      let back : Base64Url.decode [] ≡ ok o = (decode_iff-encode [] o).1 (blank, h) in
      let nothing : Base64Url.decode [] ≡ ok [] = decode-encode [] tt in rw e (sym nothing ∙ back)
]

read_algorithm-name_of :
    (t : Text) (a : Option Algorithm) → read_algorithm t none (name_of a) ≡ ok a
unfolding read_algorithm
read_algorithm-name_of t none = refl
read_algorithm-name_of t (some a) = rw (name_ne_nil a, (by_name_iff-name (name a) a).1 refl)

read_encryption-name_of :
    (t : Text) (a : Option Algorithm) → Encrypts a → read_encryption t none (name_of a) ≡ ok a
unfolding read_encryption
read_encryption-name_of t none h = refl
read_encryption-name_of t (some a) h = rw (name_ne_nil a, (by_name_iff-name (name a) a).1 refl, h)

read_url-url_text : (t : Text) (u : Option Url) → IsUrl t u → read_url t none (url_text t u) ≡ ok u
unfolding read_url
read_url-url_text t none h = refl
read_url-url_text t (some u) h = ground (arith, h.1, list_eqb_iff (t.url_string u) [], h.0)

-- What `raw` writes of a header that passes the "crit" check, `from_raw` reads.
from_raw-raw_fields :
    (t : Text) (h : Header)
    → IsWritable t h
    → check_critical h.critical h.base64url_encode_payload ≡ ok tt
    → from_raw t empty (raw_fields t h) ≡ ok (record h { encoded_header = [] })
unfolding raw_fields from_raw
from_raw-raw_fields t h w passed = rw (
  passed,
  read_algorithm-name_of t h.algorithm,
  read_url-url_text t h.jwk_set_url w.jwk_set_url,
  read_url-url_text t h.x509_url w.x509_url,
  read_encryption-name_of t h.encryption_algorithm w.encrypts,
  w.public_only,
  decode_octets-encode_octets h.agreement_party_u_info w.apu,
  decode_octets-encode_octets h.agreement_party_v_info w.apv,
  decode_octets-encode_octets h.initialization_vector w.iv,
  decode_octets-encode_octets h.authentication_tag w.tag,
  decode_octets-encode_octets h.pbes2_salt_input w.p2s,
)

raw-eq_ok :
    (t : Text) (h : Header) (r : RawHeader)
    → raw t h ≡ ok r
    → (check_critical h.critical h.base64url_encode_payload ≡ ok tt) × (raw_fields t h ≡ r)
unfolding raw
raw-eq_ok t h r e = (ground arith, ground arith)

marshal-eq_ok :
    (t : Text) (h : Header) (s : Octets)
    → h.encoded_header ≡ []
    → marshal t h ≡ ok s
    → (r : RawHeader) × (raw t h ≡ ok r) × (Base64Url.encode (t.write_json r) ≡ s)
unfolding marshal
marshal-eq_ok t h s fresh e = elim (Result-cases (raw t h)) [
  | inl (r, made) ↦ (r, made, ground (arith, list_eqb_iff h.encoded_header []))
  | inr (x, failed) ↦ absurd (ground (arith, list_eqb_iff h.encoded_header []))
]

-- A header that Marshal encodes from its fields is read back by Unmarshal into a new header with
-- the same value in every field, and the encoded text kept beside them. It holds where the JSON
-- codec reads back what it writes of this header, and for a header whose URLs have texts that parse back, whose "enc" is
-- a content encryption algorithm and whose "epk" holds no private key.
pub unmarshal-marshal :
    (t : Text) (h : Header) (encoded : Octets)
    → IsRead t (raw_fields t h)
    → IsWritable t h
    → h.encoded_header ≡ []
    → marshal t h ≡ ok encoded
    → unmarshal t empty encoded ≡ ok (record h { encoded_header = encoded })
unfolding unmarshal unmarshal_json
unmarshal-marshal t h encoded codec w fresh e =
    let (r, made, written) = marshal-eq_ok t h encoded fresh e in
    let (passed, fields) = raw-eq_ok t h r made in
    let written_octets : IsOctets (t.write_json r) =
      subst (λ x. IsOctets (t.write_json x)) fields codec.write_json-IsOctets in
    let read_back : t.read_json (t.write_json r) ≡ ok r =
      subst (λ x. t.read_json (t.write_json x) ≡ ok x) fields codec.read_json-write_json in
    let read : Base64Url.decode encoded ≡ ok (t.write_json r) =
      (decode_iff-encode encoded (t.write_json r)).1 (written, written_octets) in
    let back : from_raw t empty r ≡ ok (record h { encoded_header = [] }) =
      subst (λ x. from_raw t empty x ≡ ok (record h { encoded_header = [] })) fields
        (from_raw-raw_fields t h w passed) in
    rw (read, read_back, back)
