-- ===== src/Jwt/Verification/Authentic.antt =====
-- What verifySignature and verifySignatures of token.go accept.
use golang_jwt_ci_test.Prelude.{
  ◌≡◌, ◌↔◌, inl, inr, true, Option, none, some, List, [], ◌∷◌, ◌++◌, arith, Octets, nat_same,
  list_same, contains, if◌then◌else◌, Any, is_empty,
}
use golang_jwt_ci_test.Errors.{Result, Error, ok, Result-cases, >>=-eq_ok}
use golang_jwt_ci_test.Jwa.Algorithm.{Algorithm, algorithm_same, is_verifier}
use golang_jwt_ci_test.Jwk.Key.{Key}
use golang_jwt_ci_test.Jwk.KeySet.{KeySet, candidates}
use golang_jwt_ci_test.Header.Fields.{Header}
use golang_jwt_ci_test.Header.Codec
use golang_jwt_ci_test.Jwt.Token.{VerificationConfig, Services}
use golang_jwt_ci_test.Jwt.Keys.{header_candidates, verify_request}
use golang_jwt_ci_test.Jwt.Signing.{signing_input}
use golang_jwt_ci_test.Jwt.Verification.{permitted, try_keys, verify_with, verify_signature}

module _ (s : Services) where
  -- The scheme accepts the signature under the key.
  abbrev pub Accepts : Algorithm → Octets → Octets → Key → Type 0
  Accepts a input signature key = s.verify a input signature key.material ≡ ok tt

  try_keys-Any :
      (a : Algorithm) (input signature : Octets) (failures : List Error) (keys : List Key)
      → try_keys s a input signature failures keys ≡ ok tt
      → Any (Accepts a input signature) keys
  unfolding try_keys
  try_keys-Any a input signature failures [] h = ground arith
  try_keys-Any a input signature failures (key ∷ rest) h =
      elim (Result-cases (s.verify a input signature key.material)) [
        | inl (u, e) ↦ inl e
        | inr (x, e) ↦ inr (try_keys-Any a input signature (failures ++ x ∷ []) rest (ground arith))
      ]

  Any-try_keys :
      (a : Algorithm) (input signature : Octets) (failures : List Error) (keys : List Key)
      → Any (Accepts a input signature) keys
      → try_keys s a input signature failures keys ≡ ok tt
  unfolding try_keys
  Any-try_keys a input signature failures [] h = absurd h
  Any-try_keys a input signature failures (key ∷ rest) (inl e) = ground arith
  Any-try_keys a input signature failures (key ∷ rest) (inr later) =
      elim (Result-cases (s.verify a input signature key.material)) [
        | inl (u, e) ↦ ground arith
        | inr (x, e) ↦
            ground (arith, Any-try_keys a input signature (failures ++ x ∷ []) rest later)
      ]

  tried :
      (P : Key → Type 0) (e r : Result (Unit {0})) (keys : List Key)
      → Any P keys
      → r ≡ ok tt
      → (if is_empty keys then e else r) ≡ ok tt
  tried P e r [] h k = absurd h
  tried P e r (key ∷ rest) h k = k

  verify_with_iff :
      (a : Algorithm) (input signature : Octets) (more : List Key × Option Error) (found : List Key)
      → (verify_with s a input signature more found ≡ ok tt)
        ↔ Any (Accepts a input signature) (found ++ more.0)
  unfolding verify_with
  verify_with_iff a input signature (from_header, refused) found = (
    λ h. try_keys-Any a input signature [] (found ++ from_header) (ground arith),
    λ h.
        tried (Accepts a input signature) _ _ (found ++ from_header) h
          (Any-try_keys a input signature [] (found ++ from_header) h),
  )

  -- The header names an algorithm that the configuration has and that can verify, and the scheme
  -- accepts the signature on the header and the payload under a candidate of the set or of the header.
  abbrev pub IsAuthentic : VerificationConfig → Octets → Option KeySet → Header → Octets → Type 0
  IsAuthentic config encoded_payload set protected_header signature =
      (a : Algorithm) × (protected_header.algorithm ≡ some a)
      × (contains config.algorithms a ≡ true)
      × (is_verifier a ≡ true)
      × (encoded : Octets) × (Codec.marshal s.header_text protected_header ≡ ok encoded)
      × (more : List Key × Option Error) × (header_candidates s protected_header a config ≡ ok more)
      × Any (Accepts a (signing_input encoded encoded_payload) signature)
          (candidates (verify_request a protected_header.key_id) set ++ more.0)

  permitted_iff :
      (config : VerificationConfig) (o : Option Algorithm) (a : Algorithm)
      → (permitted config o ≡ ok a)
        ↔ ((o ≡ some a) × (contains config.algorithms a ≡ true) × (is_verifier a ≡ true))
  unfolding permitted
  permitted_iff config none a = ground arith
  permitted_iff config (some b) a =
      (λ h. (ground arith, ground arith, ground arith), λ (e, h, k). ground arith)

  -- verifySignature accepts a signature exactly when it is authentic.
  pub verify_signature_iff :
      (config : VerificationConfig) (encoded_payload : Octets) (set : Option KeySet)
      (protected_header : Header) (signature : Octets)
      → (verify_signature s config encoded_payload set protected_header signature ≡ ok tt)
        ↔ IsAuthentic config encoded_payload set protected_header signature
  unfolding verify_signature
  verify_signature_iff config encoded_payload set h signature = (
    λ q.
        let (a, p, q1) = >>=-eq_ok (permitted config h.algorithm) _ q in
        let (encoded, m, q2) = >>=-eq_ok (Codec.marshal s.header_text h) _ q1 in
        let (more, c, q3) = >>=-eq_ok (header_candidates s h a config) _ q2 in
        let (n, i, v) = (permitted_iff config h.algorithm a).0 p in
        (a, n, i, v, encoded, m, more, c, (verify_with_iff a _ signature more _).0 q3),
    λ (a, n, i, v, encoded, m, more, c, k).
        (ground (
          arith,
          (permitted_iff config h.algorithm a).1 (n, i, v),
          m,
          c,
          (verify_with_iff a _ signature more _).1 k,
        )),
  )
