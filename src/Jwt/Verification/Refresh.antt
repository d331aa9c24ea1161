-- ===== src/Jwt/Verification/Refresh.antt =====
-- When verifySignature of token.go fails for want of a key, which makes withKeys refresh.
use golang_jwt_ci_test.Prelude.{
  ◌≡◌, inl, inr, refl, false, Option, none, some, All, Bool-cases, List, [], ◌∷◌, ◌++◌, arith,
  Octets, is_empty, none_of-append, append-none_of,
}
use golang_jwt_ci_test.Errors.{
  Result, Error, ok, err, join, lacks_key, is_no_suitable_key, Result-cases,
}
use golang_jwt_ci_test.Jwa.Algorithm.{Algorithm}
use golang_jwt_ci_test.Jwk.Key.{Key}
use golang_jwt_ci_test.Jwk.KeySet.{KeySet, candidates}
use golang_jwt_ci_test.Header.Fields.{Header}
use golang_jwt_ci_test.Header.Codec
use golang_jwt_ci_test.Jws.{Signature}
use golang_jwt_ci_test.Jwt.Token.{Token, VerificationConfig, Services}
use golang_jwt_ci_test.Jwt.Keys.{
  Source, header_candidates, verify_request, with_keys, after_get, after_attempt,
}
use golang_jwt_ci_test.Jwt.Signing.{signing_input}
use golang_jwt_ci_test.Jwt.Verification.{
  permitted, try_keys, verify_with, verify_signature, well_formed, verify_each, verify_signatures,
}

join-append :
    (es : List Error) (e : Error)
    → lacks_key (join es) ≡ false
    → lacks_key e ≡ false
    → lacks_key (join (es ++ e ∷ [])) ≡ false
join-append [] e h k = none_of-append is_no_suitable_key e [] k refl
join-append (x ∷ es) e h k =
    let (a, b) = append-none_of is_no_suitable_key x (join es) h in
    none_of-append is_no_suitable_key x (join (es ++ e ∷ [])) a (join-append es e b k)

module _ (s : Services) where
  -- No scheme fails for want of a key.
  abbrev pub Decides : Type 0
  Decides =
      (a : Algorithm) (input signature : Octets) (key : Key) (e : Error)
      → s.verify a input signature key.material ≡ err e
      → lacks_key e ≡ false

  try_keys-keeps :
      Decides
      → (a : Algorithm) (input signature : Octets) (failures : List Error) (keys : List Key)
        (e : Error)
      → lacks_key (join failures) ≡ false
      → try_keys s a input signature failures keys ≡ err e
      → lacks_key e ≡ false
  unfolding try_keys
  try_keys-keeps d a input signature failures [] e f h = ground arith
  try_keys-keeps d a input signature failures (key ∷ rest) e f h =
      elim (Result-cases (s.verify a input signature key.material)) [
        | inl (u, q) ↦ ground arith
        | inr (x, q) ↦
            try_keys-keeps d a input signature (failures ++ x ∷ []) rest e
              (join-append failures x f (d a input signature key x q)) (ground arith)
      ]

  verify_with-keeps :
      Decides
      → (a : Algorithm) (input signature : Octets) (more : List Key × Option Error)
        (found : List Key) (e : Error)
      → is_empty (found ++ more.0) ≡ false
      → verify_with s a input signature more found ≡ err e
      → lacks_key e ≡ false
  unfolding verify_with
  verify_with-keeps d a input signature more found e n h =
      try_keys-keeps d a input signature [] (found ++ more.0) e refl (ground (arith, n))

  module _ (config : VerificationConfig) (set : Option KeySet) where
    -- The signature is well formed and has a candidate, in the set or in its own header.
    abbrev pub HasCandidate : Option Signature → Type 0
    HasCandidate signature =
        (p : Header × Octets) × (a : Algorithm) × (encoded : Octets) × (more : List Key
          × Option Error)
        × (well_formed s signature ≡ ok p)
        × (permitted config p.0.algorithm ≡ ok a)
        × (Codec.marshal s.header_text p.0 ≡ ok encoded)
        × (header_candidates s p.0 a config ≡ ok more)
        × (is_empty (candidates (verify_request a p.0.key_id) set ++ more.0) ≡ false)

  module _ (config : VerificationConfig) (encoded_payload : Octets) (set : Option KeySet) where
    verify_signature-keeps :
        Decides
        → (signature : Option Signature) (h : HasCandidate config set signature) (e : Error)
        → verify_signature s config encoded_payload set h.0.0 h.0.1 ≡ err e
        → lacks_key e ≡ false
    unfolding verify_signature
    verify_signature-keeps d signature (p, a, encoded, more, w, b, m, c, n) e h =
        verify_with-keeps d a (signing_input encoded encoded_payload) p.1 more
          (candidates (verify_request a p.0.key_id) set) e n (rw (b, m, c) at h)

    verify_each-keeps :
        Decides
        → (signatures : List (Option Signature)) (failures : List Error) (types : List Octets)
          (e : Error)
        → All (HasCandidate config set) signatures
        → lacks_key (join failures) ≡ false
        → (verify_each s config encoded_payload set signatures failures types).1 ≡ err e
        → lacks_key e ≡ false
    unfolding verify_each
    verify_each-keeps d [] failures types e c f h = ground (arith, f, h)
    verify_each-keeps d (signature ∷ rest) failures types e (c, later) f h =
        elim (Result-cases (verify_signature s config encoded_payload set c.0.0 c.0.1)) [
          | inl (u, q) ↦ elim (Bool-cases config.all_signatures) [
            | inl a ↦
                verify_each-keeps d rest failures (types ++ c.0.0.type_ ∷ []) e later f
                  (ground (arith, c.4, q, a, h))
            | inr a ↦ ground (arith, c.4, q, a, h)
          ]
          | inr (x, q) ↦
              let k = verify_signature-keeps d signature c x q in
              elim (Bool-cases config.all_signatures) [
                | inl a ↦ ground (arith, c.4, q, a, h, k)
                | inr a ↦
                    verify_each-keeps d rest (failures ++ x ∷ []) types e later
                      (join-append failures x f k) (ground (arith, c.4, q, a, h))
              ]
        ]

  attempted_once :
      {K : Type 0} (attempt : Option KeySet → Token → Token × Result (Unit {0}))
      (refresh : Option (K → K × Result (Option KeySet))) (k : K) (r : Token × Result (Unit {0}))
      → ((e : Error) → r.1 ≡ err e → lacks_key e ≡ false)
      → after_attempt attempt refresh k r ≡ (k, r.0, r.1)
  unfolding after_attempt
  attempted_once attempt refresh k (t, ok u) h = refl
  attempted_once attempt none k (t, err e) h = refl
  attempted_once attempt (some refresh) k (t, err e) h = ground (arith, h e refl)

  -- Where no scheme fails for want of a key, and every signature of the token is well formed and has a
  -- candidate in the set that Get gives or in its own header, withKeys makes one attempt and no
  -- Refresh: it leaves the source as Get left it, and gives what verifySignatures gives with that set,
  -- also where no candidate accepts a signature.
  pub with_keys-no_refresh :
      {K : Type 0}
      → Decides
      → (config : VerificationConfig) (encoded_payload : Octets) (source : Source K) (k k' : K)
        (set : Option KeySet) (token : Token)
      → source.get k ≡ (k', ok set)
      → All (HasCandidate config set) token.signatures
      → with_keys (verify_signatures s config encoded_payload) (some source) k token ≡ (
        k',
        (verify_signatures s config encoded_payload set token).0,
        (verify_signatures s config encoded_payload set token).1,
      )
  unfolding with_keys after_get verify_signatures
  with_keys-no_refresh d config encoded_payload source k k' set token g c = rw g (
      attempted_once (verify_signatures s config encoded_payload) source.refresh k'
        (verify_signatures s config encoded_payload set token)
        (λ e.
          verify_each-keeps config encoded_payload set d token.signatures []
            token.authenticated_types e c refl))
