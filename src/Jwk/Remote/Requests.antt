-- ===== src/Jwk/Remote/Requests.antt =====
-- NewSource and request of jwk/remote/remote.go.
use golang_jwt_ci_test.Prelude.{
  ℕ, ◌+◌, ◌^◌, ◌≤◌, ◌<◌, ◌≡◌, ◌≢◌, ◌↔◌, refl, ap, sym, ◌∙◌, not, none, some, List, [], ◌∷◌, arith,
  Octets, text, ◌==◌, nat_same, list_same, list_eqb_iff, ltb, eqb, ltb→lt, lt→ltb, eqb_iff, length,
  All,
}
use golang_jwt_ci_test.Errors.{
  guard-eq_ok, Result, Error, ok, err, ◌>>=◌, ◌>>◌, guard, >>=-eq_ok, eq_ok->>=, from_ok,
  insecure_url, unexpected_status, oversized_key_set,
}
use golang_jwt_ci_test.Streams.{Stream, read_limited, read_limited_iff, guard-within, within-guard}
use golang_jwt_ci_test.Jwk.KeySet.{KeySet}
use golang_jwt_ci_test.Jwk.Remote.{
  Source, Address, Response, request, read_size, read_set_or, new_source, apply_options,
}

module _ (source : Source) (read_json : Octets → Result KeySet) where
  read_rest : ℕ → Stream → Result KeySet
  read_rest limit stream = do
    body ← read_limited (limit + 1) stream
    guard (not (ltb limit (length body))) (oversized_key_set ∷ [])
    read_set_or (read_json body)

  set_read : (r : Result KeySet) {set : KeySet} → read_set_or r ≡ ok set → r ≡ ok set
  set_read (ok s) h = h
  set_read (err e) h = cc

  read_rest_iff :
      (limit : ℕ) (stream : Stream) (set : KeySet)
      → (read_rest limit stream ≡ ok set) ↔ (
          (body : Octets) × (stream ≡ (body, none))
          × (length body ≤ limit)
          × (read_json body ≡ ok set))
  unfolding read_rest
  read_rest_iff limit stream set = (
    λ h.
        let (body, read, h1) = >>=-eq_ok (read_limited (limit + 1) stream) _ h in
        let (small, parsed) =
          guard-within limit (length body) _ (read_set_or (read_json body)) h1 in
        let (whole, fits) = (read_limited_iff limit stream body).0 (read, small) in
        (body, whole, fits, set_read (read_json body) parsed),
    λ (body, whole, fits, parsed).
        eq_ok->>= (read_limited (limit + 1) stream) _
          ((read_limited_iff limit stream body).1 (whole, fits)).0
          (within-guard limit (length body) _ (read_set_or (read_json body)) fits
            ∙ ap read_set_or parsed),
  )

  pair : {a b : ℕ} {x y : Stream} → a ≡ b → x ≡ y → ◌≡◌ {A = ℕ × Stream} (a, x) (b, y)
  pair h k = cc

  request_rest :
      (status : ℕ) (stream : Stream)
      → source.limit + 1 < 2 ^ 63
      → request source read_json (ok (status, stream))
        ≡ (guard (eqb status 200) (unexpected_status ∷ []) >> read_rest source.limit stream)
  unfolding request read_size read_rest
  request_rest status stream small =
      let size : read_size source.limit ≡ source.limit + 1 =
        ground (arith, lt→ltb (source.limit + 1) (2 ^ 63) small) in
      ap
        (λ n.
          guard (eqb status 200) (unexpected_status ∷ [])
          >> (read_limited n stream >>= λ body.
              guard (not (ltb source.limit (length body))) (oversized_key_set ∷ [])
              >> read_set_or (read_json body)))
        size

  -- request gives a set exactly when the response has status 200 and its body ends without an error,
  -- is at most as long as the limit, which is less than the largest int64, and reads as that set.
  pub request_iff :
      (response : Response) (set : KeySet)
      → source.limit + 1 < 2 ^ 63
      → (request source read_json response ≡ ok set) ↔ (
          (body : Octets) × (response ≡ ok (200, (body, none)))
          × (length body ≤ source.limit)
          × (read_json body ≡ ok set))
  unfolding request
  request_iff (err e) set small = (λ h. absurd (cc), λ (body, r, fits, parsed). absurd (cc))
  request_iff (ok (status, stream)) set small =
      let rest = request_rest status stream small in
      (
        λ h.
            let (u, found, h1) =
              >>=-eq_ok (guard (eqb status 200) (unexpected_status ∷ [])) _ (sym rest ∙ h) in
            let (body, whole, fits, parsed) = (read_rest_iff source.limit stream set).0 h1 in
            (
              body,
              ap ok (pair ((eqb_iff status 200).0 (guard-eq_ok _ _ found)) whole),
              fits,
              parsed,
            ),
        λ (body, r, fits, parsed).
            rest
            ∙ eq_ok->>= (guard (eqb status 200) (unexpected_status ∷ [])) _ {x = tt}
                (ap (λ b. guard b (unexpected_status ∷ []))
                  ((eqb_iff status 200).1 (ap (λ z. z.0) (from_ok r))))
                ((read_rest_iff source.limit stream set).1
                  (body, ap (λ z. z.1) (from_ok r), fits, parsed)),
      )

  -- With the largest int64 as the limit, one more than it is negative, and no octet of a response is
  -- read: where the empty text is no key set, no response gives a set.
  pub request-largest_limit :
      (response : Response) (set : KeySet) {e : Error}
      → source.limit + 1 ≡ 2 ^ 63
      → read_json [] ≡ err e
      → request source read_json response ≢ ok set
  unfolding request read_size read_limited
  request-largest_limit (err f) set large empty h = absurd (cc)
  request-largest_limit (ok (status, stream)) set {e} large empty h =
      let (u, found, h1) = >>=-eq_ok (guard (eqb status 200) (unexpected_status ∷ [])) _ h in
      let size : read_size source.limit ≡ 0 =
        ground (arith, large, ltb→lt (source.limit + 1) (2 ^ 63)) in
      let (body, read, h2) = >>=-eq_ok (read_limited (read_size source.limit) stream) _ h1 in
      let none_read : body ≡ [] =
        from_ok (sym read ∙ ap (λ n. read_limited n stream) size ∙ nothing stream) in
      let (small, parsed) =
        guard-within source.limit (length body) _ (read_set_or (read_json body)) h2 in
      let clash : ok set ≡ err e =
        sym (set_read (read_json body) parsed) ∙ ap read_json none_read ∙ empty in
      absurd (cc)
    where
      nothing : (stream : Stream) → read_limited 0 stream ≡ ok []
      nothing (o, none) = refl
      nothing (o, some e) = ground arith

-- An option of the package does not change the address.
abbrev pub KeepsUrl : (Source → Source) → Type 0
KeepsUrl option = (source : Source) → (option source).url ≡ source.url

apply_options-url :
    (options : List (Source → Source)) (source : Source)
    → All KeepsUrl options
    → (apply_options options source).url ≡ source.url
unfolding apply_options
apply_options-url [] source k = refl
apply_options-url (option ∷ rest) source (k, later) =
    apply_options-url rest (option source) later ∙ k source

-- NewSource gives a source only for an address that parses, that is https and that names a host, and
-- no option changes the address that it requests.
pub new_source-IsSecure :
    (parse : Octets → Result Address) (address : Octets) (options : List (Source → Source))
    (source : Source)
    → All KeepsUrl options
    → new_source parse address options ≡ ok source
    → (parsed : Address) × (parse address ≡ ok parsed)
      × (parsed.scheme ≡ text "https")
      × (parsed.host ≢ [])
      × (source.url ≡ parsed.string)
unfolding new_source
new_source-IsSecure parse address options source k h =
    let (parsed, p, h1) = >>=-eq_ok (parse address) _ h in
    let (u, secure, h2) =
      >>=-eq_ok (guard (parsed.scheme == text "https") (insecure_url ∷ [])) _ h1 in
    let (v, hosted, h3) = >>=-eq_ok (guard (not (parsed.host == [])) (insecure_url ∷ [])) _ h2 in
    let named = guard-eq_ok (not (parsed.host == [])) (insecure_url ∷ []) hosted in
    (
      parsed,
      p,
      (list_eqb_iff parsed.scheme (text "https")).0 (guard-eq_ok _ _ secure),
      ground (arith, named, list_eqb_iff parsed.host []),
      sym (ap (λ s. s.url) (from_ok h3)) ∙ apply_options-url options _ k,
    )
