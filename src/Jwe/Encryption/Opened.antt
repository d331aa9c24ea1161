-- ===== src/Jwe/Encryption/Opened.antt =====
-- A message that Encrypt of jwe/jwe.go made, and Decrypt.
use golang_jwt_ci_test.Prelude.{
  ℕ, ◌≡◌, refl, ap, sym, subst, ◌∙◌, true, not, Option, none, some, List, [], ◌∷◌, arith, Octets,
  ◌==◌, nat_same, list_same, list_eqb_iff, Bool-cases, inl, inr, ◌⊎◌,
}
use golang_jwt_ci_test.Errors.{
  from_ok, or_fail-eq_ok, guard-eq_ok, ok, guard, or_fail, >>=-eq_ok, eq_ok->>=,
  unsupported_key_type, unsupported_algorithm, malformed_message,
}
use golang_jwt_ci_test.Jwa.Algorithm.{Algorithm}
use golang_jwt_ci_test.Jwa.Material.{KeyKind, Material, public}
use golang_jwt_ci_test.Jwa.Management.{is_key_decrypter, is_key_encrypter}
use golang_jwt_ci_test.Jwk.Key.{Key}
use golang_jwt_ci_test.Jwk.Key
use golang_jwt_ci_test.Jwk.Public.{KeyLibrary, new_key, public_key, public_material}
use golang_jwt_ci_test.Header.Fields.{Header, KeyParameters, key_parameters}
use golang_jwt_ci_test.Header.Codec.{Text, set_encoded}
use golang_jwt_ci_test.Header.Codec
use golang_jwt_ci_test.Header.Members.{members}
use golang_jwt_ci_test.Header.Agreed.{ephemeral_key, set_key_parameters}
use golang_jwt_ci_test.Jwe.Message.{
  Recipient, Message, content_encryption, absent, enc_of, unprotected_enc, key_management,
  authenticated_data, check_headers, check_recipients, check_recipient, recipient_members,
}
use golang_jwt_ci_test.Jwe.Decryption.{
  Slice, Suite, contents, decrypt, decrypt_entry, decrypt_recipient, decompress, prepare_decryption,
  message_key_parameters, try_recipients,
}
use golang_jwt_ci_test.Jwe.Encryption.{
  RecipientKey, Sealer, recipient_of, encrypt_keys, encrypt_one,
}

pub marshal-set_encoded :
    (t : Text) (h : Header) (encoded : Octets)
    → Codec.marshal t h ≡ ok encoded
    → Codec.marshal t (set_encoded encoded h) ≡ ok encoded
unfolding Codec.marshal set_encoded Codec.raw Codec.raw_fields
marshal-set_encoded t h [] q = elim (Bool-cases (h.encoded_header == [])) [
  | inl e ↦ ground (arith, e, q)
  | inr n ↦ absurd (ground (arith, n, q, list_eqb_iff h.encoded_header []))
]
marshal-set_encoded t h (c ∷ encoded) q = refl

pub encrypter_decrypts : (a : Algorithm) → is_key_encrypter a ≡ true → is_key_decrypter a ≡ true
unfolding is_key_encrypter
encrypter_decrypts a h = ground (arith, h)

-- The message that a single recipient gets.
abbrev pub message_for : Header → Option Octets → Octets → Octets → Octets → Octets → Message
message_for h aad encrypted_key iv ciphertext tag = record {
  protected_header = some h;
  shared_header = none;
  recipients =
      some (record {
        header = none;
        encrypted_key = encrypted_key;
        raw_header = [];
        unsupported = none;
      })
      ∷ [];
  initialization_vector = iv;
  ciphertext = ciphertext;
  authentication_tag = tag;
  additional_authenticated_data = aad;
}

module _ (d : Suite) (h : Header) (aad : Option Octets) (ek iv ct tag encoded : Octets)
    (alg enc : Algorithm) where
  prepared :
      h.encryption_algorithm ≡ some enc
      → Codec.marshal d.header_text h ≡ ok encoded
      → prepare_decryption d (message_for h aad ek iv ct tag)
        ≡ ok (h, enc, authenticated_data (message_for h aad ek iv ct tag) encoded)
  unfolding prepare_decryption content_encryption unprotected_enc check_headers check_recipients
      check_recipient recipient_members members
  prepared e w =
      let named : content_encryption (message_for h aad ek iv ct tag) ≡ ok enc =
        ground (arith, e) in
      ground (arith, named, w)

  pub opened :
      (cek : Octets) (key : Option Material) (slice : Slice)
      → h.algorithm ≡ some alg
      → h.encryption_algorithm ≡ some enc
      → h.compression_algorithm ≡ []
      → is_key_decrypter alg ≡ true
      → Codec.marshal d.header_text h ≡ ok encoded
      → d.decrypt_key alg ek key enc (key_parameters h) ≡ ok cek
      → d.decrypt enc ct cek iv (authenticated_data (message_for h aad ek iv ct tag) encoded) tag
        ≡ ok slice
      → decrypt d (message_for h aad ek iv ct tag) key ≡ ok slice
  unfolding decrypt try_recipients decrypt_entry decrypt_recipient key_management
      message_key_parameters decompress
  opened cek key slice a e z k w u o = eq_ok->>= _ _ (prepared e w) (ground (arith, a, z, k, u, o))

-- The ephemeral key of the parameters, where there is one, is a public key.
abbrev pub IsPublished : KeyParameters → Type 0
IsPublished p =
    (p.ephemeral_public_key ≡ none)
    ⊎ ((kind : KeyKind) × (n : ℕ) × (p.ephemeral_public_key ≡ some (public kind n)))

published_material :
    (l : KeyLibrary) (kind : KeyKind) (n : ℕ) (epk : Option Key)
    → ephemeral_key l (some (public kind n)) ≡ ok epk
    → Key.material_of epk ≡ some (public kind n)
unfolding ephemeral_key new_key public_key public_material Key.material_of
published_material l kind n epk q =
    let (u, typed, q1) =
      >>=-eq_ok
        (guard (not ((new_key l (public kind n)).key_type == [])) (unsupported_key_type ∷ [])) _
        q in
    sym (ap Key.material_of (from_ok q1))

ephemeral_material :
    (l : KeyLibrary) (o : Option Material) (epk : Option Key)
    → (o ≡ none) ⊎ ((kind : KeyKind) × (n : ℕ) × (o ≡ some (public kind n)))
    → ephemeral_key l o ≡ ok epk
    → Key.material_of epk ≡ o
unfolding ephemeral_key new_key public_key public_material Key.material_of
ephemeral_material l o epk (inl e) q = ground (arith, e, q)
ephemeral_material l o epk (inr (kind, n, e)) q =
    published_material l kind n epk (sym (ap (ephemeral_key l) e) ∙ q) ∙ sym e

pub set_parameters :
    (s : Sealer) (p : KeyParameters) (h set : Header)
    → IsPublished p
    → set_key_parameters s.key_library p h ≡ ok set
    → (set.algorithm ≡ h.algorithm)
      × (set.encryption_algorithm ≡ h.encryption_algorithm)
      × (set.compression_algorithm ≡ h.compression_algorithm)
      × (key_parameters set ≡ p)
unfolding set_key_parameters key_parameters Key.material_of
set_parameters s p h set published q =
    let (epk, made, q1) = >>=-eq_ok (ephemeral_key s.key_library p.ephemeral_public_key) _ q in
    let m = ephemeral_material s.key_library p.ephemeral_public_key epk published made in
    subst
      (λ x.
        (x.algorithm ≡ h.algorithm)
        × (x.encryption_algorithm ≡ h.encryption_algorithm)
        × (x.compression_algorithm ≡ h.compression_algorithm)
        × (key_parameters x ≡ p))
      (from_ok q1) (refl, refl, refl, ap (λ o. record p { ephemeral_public_key = o }) m)

module _ (s : Sealer) (m : Message) (rk : RecipientKey) (encryption : Algorithm)
    (p : KeyParameters) where
  -- The parts of encryptKeys for one recipient.
  pub one_key :
      (cek : Octets) (encrypted : List (Option Recipient)) (parameters : KeyParameters)
      → encrypt_keys s m encryption p (rk ∷ []) ≡ ok (cek, encrypted, parameters)
      → (algorithm : Algorithm) × (encrypted_key : Octets) × (key_management m
            (recipient_of s rk.header [])
          ≡ ok algorithm)
        × (is_key_encrypter algorithm ≡ true)
        × (s.encrypt_key algorithm rk.key encryption p ≡ ok (cek, encrypted_key, parameters))
        × (encrypted ≡ some (recipient_of s rk.header encrypted_key) ∷ [])
  unfolding encrypt_keys encrypt_one
  one_key cek encrypted parameters q =
      let (algorithm, named, q1) = >>=-eq_ok (key_management m (recipient_of s rk.header [])) _ q in
      let (u, able, q2) =
        >>=-eq_ok (guard (is_key_encrypter algorithm) (unsupported_algorithm ∷ [])) _ q1 in
      let (made, done, q3) = >>=-eq_ok (s.encrypt_key algorithm rk.key encryption p) _ q2 in
      let same = from_ok q3 in
      (
        algorithm,
        made.1,
        named,
        guard-eq_ok _ _ able,
        done ∙ ap (λ x. ok (x.0, made.1, x.2)) same,
        ap (λ x. x.1) (sym same),
      )

-- What a recipient relies on: the two sides write headers alike, an algorithm leaves no ephemeral key but a
-- public one where none but a public one was given, and each opens what the other made under its key.
pub record Matches (s : Sealer) (d : Suite) (sealing opening : Option Material) : Type 0 where
  pub same_text : d.header_text ≡ s.header_text
  pub opens_key :
      (algorithm encryption : Algorithm) (p parameters : KeyParameters) (cek encrypted_key : Octets)
      → IsPublished p
      → s.encrypt_key algorithm sealing encryption p ≡ ok (cek, encrypted_key, parameters)
      → IsPublished parameters
        × (d.decrypt_key algorithm encrypted_key opening encryption parameters ≡ ok cek)
  pub opens_content :
      (encryption : Algorithm) (plaintext cek iv aad ciphertext tag : Octets)
      → s.encrypt encryption plaintext cek iv aad ≡ ok (ciphertext, tag)
      → (slice : Slice) × (d.decrypt encryption ciphertext cek iv aad tag ≡ ok slice)
        × (contents slice ≡ plaintext)

pub content_encryption-protected :
    (m : Message) (h : Header) (encryption : Algorithm)
    → m.protected_header ≡ some h
    → content_encryption m ≡ ok encryption
    → h.encryption_algorithm ≡ some encryption
unfolding content_encryption
content_encryption-protected m h encryption q c =
    let (h', found, c1) = >>=-eq_ok (or_fail m.protected_header (malformed_message ∷ [])) _ c in
    let (e, named, c2) =
      >>=-eq_ok (or_fail h'.encryption_algorithm (malformed_message ∷ [])) _ c1 in
    let (u, alone, c3) =
      >>=-eq_ok (guard (absent (enc_of m.shared_header)) (malformed_message ∷ [])) _ c2 in
    let (v, apart, c4) =
      >>=-eq_ok (guard (absent (unprotected_enc m.recipients)) (malformed_message ∷ [])) _ c3 in
    let same : some h' ≡ some h = sym (or_fail-eq_ok m.protected_header _ found) ∙ q in
    ap (λ x. enc_of x) (sym same)
    ∙ or_fail-eq_ok h'.encryption_algorithm _ named
    ∙ ap some (from_ok c4)

pub key_management-protected :
    (m : Message) (h : Header) (r : Recipient) (algorithm : Algorithm)
    → m.protected_header ≡ some h
    → m.shared_header ≡ none
    → r.header ≡ none
    → key_management m r ≡ ok algorithm
    → h.algorithm ≡ some algorithm
unfolding key_management
key_management-protected m h r algorithm q n o k =
    or_fail-eq_ok h.algorithm (malformed_message ∷ []) (ground (arith, q, n, o, k))
