-- ===== src/Jwe/Tests.antt =====
-- A message for one key, over toy algorithms: the tag is the content key, and a plaintext is its ciphertext.
use golang_jwt_ci_test.Prelude.{
  ◌≡◌, inl, inr, refl, ap, sym, subst, ◌∙◌, true, false, Option, none, some, List, [], ◌∷◌, arith,
  Octets, text, if◌then◌else◌, ◌==◌, nat_same, list_same, list_eqb_iff,
}
use golang_jwt_ci_test.Errors.{Error, ok, err, foreign, decryption_failed, from_ok}
use golang_jwt_ci_test.Jwa.Algorithm.{
  Algorithm, a128kw, a128gcm, is_verifier, is_content_encrypter, index, algorithm_same,
}
use golang_jwt_ci_test.Jwa.Material.{Material, octets}
use golang_jwt_ci_test.Jwa.Management.{is_key_decrypter, is_key_encrypter, iv_size}
use golang_jwt_ci_test.Jwk.Public.{set44}
use golang_jwt_ci_test.Header.Fields.{Header, KeyParameters, key_parameters}
use golang_jwt_ci_test.Header.Codec.{Text, set_encoded, raw, raw_fields}
use golang_jwt_ci_test.Header.Codec
use golang_jwt_ci_test.Header.Members.{members}
use golang_jwt_ci_test.Header.RoundTrip.{empty}
use golang_jwt_ci_test.Header.Agreed.{ephemeral_key, set_key_parameters}
use golang_jwt_ci_test.Jwe.Message.{
  Recipient, Message, content_encryption, unprotected_enc, key_management, authenticated_data,
  check_headers, check_recipients, check_recipient, recipient_members,
}
use golang_jwt_ci_test.Jwe.Decryption.{
  Slice, Suite, decrypt, decrypt_all, try_recipients, decrypt_entry, decrypt_recipient, decompress,
  prepare_decryption, message_key_parameters, contents, deflate,
}
use golang_jwt_ci_test.Jwe.Decryption.Opens.{FirstOpens, decrypt_iff, decrypt_same_error}
use golang_jwt_ci_test.Jwe.Decryption.Outcomes.{
  NoneNil, NoneHolds, decrypt_all-eq_decrypt, decrypt_all-fails,
}
use golang_jwt_ci_test.Jwe.Decryption.Size.{decompress_iff}
use golang_jwt_ci_test.Jwe.Encryption.{
  Sealer, encrypt, encrypt_to, encrypt_keys, encrypt_one, keyed, seal,
}
use golang_jwt_ci_test.Jwe.Encryption.Kept.{encoded_of, encrypt_to-encoded}
use golang_jwt_ci_test.Jwe.Encryption.Opened.{Matches, IsPublished}
use golang_jwt_ci_test.Jwe.Encryption.RoundTrip.{decrypt-encrypt}

abbrev toy_text : Text
toy_text = record {
  write_json = λ r. text "{}";
  read_json = λ json. err (foreign 0 ∷ []);
  url_string = λ u. [];
  url_parse = λ u. ok 0;
}

-- crypto/cipher gives nil for an empty plaintext.
abbrev slice_of : Octets → Slice
slice_of [] = none
slice_of (o ∷ os) = some (o ∷ os)

abbrev suite : Suite
suite = record {
  decrypt_key = λ a encrypted_key key enc p. elim key [
    | none ↦ err (decryption_failed ∷ [])
    | some k ↦ ok encrypted_key
  ];
  decrypt = λ enc ciphertext cek iv aad tag.
      if tag == cek then ok (slice_of ciphertext) else err (decryption_failed ∷ []);
  header_text = toy_text;
  header_names = λ json. ok [];
  inflate = λ o. (o, none);
}

abbrev sealer : Sealer
sealer = record {
  encrypt_key = λ a key enc p. ok (1 ∷ [], 1 ∷ [], p);
  wrap_key = λ n a cek key enc p. ok (cek, p);
  encrypt = λ enc plaintext cek iv aad. ok (plaintext, cek);
  random = λ draw n. ok [];
  same_key = λ a b. true;
  key_library = record {
    public_half = λ kind n. n;
    is_zero_public = λ n. false;
    is_zero_private = λ n. false;
    parameters = λ n. set44;
  };
  header_text = toy_text;
  header_names = λ json. ok [];
}

abbrev header : Header
header = record empty {
  algorithm = some a128kw;
  encryption_algorithm = some a128gcm;
  encoded_header = text "old";
}

abbrev plain_message : Message
plain_message = record {
  protected_header = some header;
  shared_header = none;
  recipients = [];
  initialization_vector = [];
  ciphertext = [];
  authentication_tag = [];
  additional_authenticated_data = none;
}

abbrev secret : Option Material
secret = some (octets [])

abbrev recipient : Recipient
recipient = record { header = none; encrypted_key = 1 ∷ []; raw_header = []; unsupported = none }

abbrev sealed : Octets → List (Option Recipient) → Message
sealed ciphertext recipients = record {
  protected_header = some header;
  shared_header = none;
  recipients = recipients;
  initialization_vector = [];
  ciphertext = ciphertext;
  authentication_tag = 1 ∷ [];
  additional_authenticated_data = none;
}

sealed_ok :
    encrypt sealer plain_message (5 ∷ 6 ∷ []) secret
    ≡ ok (sealed (5 ∷ 6 ∷ []) (some recipient ∷ []))
unfolding encrypt encrypt_to content_encryption unprotected_enc encrypt_keys encrypt_one
    key_management is_key_encrypter is_key_decrypter is_verifier is_content_encrypter index keyed
    set_key_parameters ephemeral_key key_parameters seal check_headers check_recipients
    check_recipient recipient_members members Codec.marshal set_encoded iv_size
sealed_ok = refl

opens_key :
    (algorithm encryption : Algorithm) (p parameters : KeyParameters) (cek encrypted_key : Octets)
    → IsPublished p
    → sealer.encrypt_key algorithm secret encryption p ≡ ok (cek, encrypted_key, parameters)
    → IsPublished parameters
      × (suite.decrypt_key algorithm encrypted_key secret encryption parameters ≡ ok cek)
opens_key algorithm encryption p parameters cek encrypted_key clear h =
    let same = from_ok h in
    (
      subst IsPublished (ap (λ x. x.2) same) clear,
      ap ok (sym (ap (λ x. x.1) same) ∙ ap (λ x. x.0) same),
    )

contents-slice_of : (o : Octets) → contents (slice_of o) ≡ o
contents-slice_of [] = refl
contents-slice_of (o ∷ os) = refl

opens_content :
    (encryption : Algorithm) (plaintext cek iv aad ciphertext tag : Octets)
    → sealer.encrypt encryption plaintext cek iv aad ≡ ok (ciphertext, tag)
    → (slice : Slice) × (suite.decrypt encryption ciphertext cek iv aad tag ≡ ok slice)
      × (contents slice ≡ plaintext)
opens_content encryption plaintext cek iv aad ciphertext tag h =
    let same = from_ok h in
    let matches = (list_eqb_iff tag cek).1 (sym (ap (λ x. x.1) same)) in
    (
      slice_of ciphertext,
      ground (arith, matches),
      contents-slice_of ciphertext ∙ sym (ap (λ x. x.0) same),
    )

toys-Matches : Matches sealer suite secret secret
toys-Matches = record { same_text = refl; opens_key = opens_key; opens_content = opens_content }

abbrev one_recipient : Message
one_recipient = sealed (5 ∷ 6 ∷ []) (some recipient ∷ [])

decrypt-encrypt_example :
    (slice : Slice) × (decrypt suite one_recipient secret ≡ ok slice)
    × (contents slice ≡ 5 ∷ 6 ∷ [])
unfolding key_parameters
decrypt-encrypt_example =
    decrypt-encrypt sealer suite plain_message one_recipient (5 ∷ 6 ∷ []) secret secret header
      toys-Matches refl (inl refl) refl sealed_ok

encrypt_to-encoded_example : encoded_of one_recipient.protected_header ≡ text "old"
unfolding encrypt
encrypt_to-encoded_example =
    encrypt_to-encoded sealer plain_message one_recipient header (5 ∷ 6 ∷ [])
      (record { header = none; key = secret } ∷ []) refl (λ q. absurd (cc)) sealed_ok

abbrev prepared : Header × Algorithm × Octets
prepared = (header, a128gcm, text "old")

-- The first recipient is not for the key, and the second one is.
abbrev two_recipients : Octets → Message
two_recipients ciphertext =
    sealed ciphertext (some (record recipient { encrypted_key = [] }) ∷ some recipient ∷ [])

opened_second : decrypt suite (two_recipients (5 ∷ [])) secret ≡ ok (some (5 ∷ []))
unfolding decrypt prepare_decryption content_encryption unprotected_enc check_headers
    check_recipients check_recipient recipient_members members Codec.marshal authenticated_data
    try_recipients decrypt_entry decrypt_recipient key_management message_key_parameters
    key_parameters is_key_decrypter is_verifier is_content_encrypter index decompress
opened_second = refl

decrypt_iff_example :
    (p : Header × Algorithm × Octets) × (prepare_decryption suite (two_recipients (5 ∷ [])) ≡ ok p)
    × (plaintext : Slice) × FirstOpens suite
        (two_recipients (5 ∷ []))
        secret
        p
        plaintext
        (two_recipients (5 ∷ [])).recipients
    × (decompress suite p.0 plaintext ≡ ok (some (5 ∷ [])))
decrypt_iff_example =
    (decrypt_iff suite (two_recipients (5 ∷ [])) secret (some (5 ∷ []))).0 opened_second

is_prepared :
    (ciphertext : Octets) → prepare_decryption suite (two_recipients ciphertext) ≡ ok prepared
unfolding prepare_decryption content_encryption unprotected_enc check_headers check_recipients
    check_recipient recipient_members members Codec.marshal authenticated_data
is_prepared ciphertext = refl

-- No recipient opens without a key.
shut :
    (plaintext : Slice)
    → ¬ FirstOpens suite
        (two_recipients (5 ∷ []))
        none
        prepared
        plaintext
        (two_recipients (5 ∷ [])).recipients
unfolding decrypt_entry decrypt_recipient key_management message_key_parameters is_key_decrypter
    is_verifier is_content_encrypter index
shut plaintext (inl q) = absurd (cc)
shut plaintext (inr (x, inl q)) = absurd (cc)
shut plaintext (inr (x, inr (y, f))) = f

decrypt_same_error_example :
    decrypt suite (two_recipients (5 ∷ [])) none ≡ err (decryption_failed ∷ [])
decrypt_same_error_example =
    decrypt_same_error suite (two_recipients (5 ∷ [])) none prepared (is_prepared (5 ∷ [])) refl
      shut

none_nil :
    (p : Header × Algorithm × Octets)
    → NoneNil suite (two_recipients (5 ∷ [])) secret p (two_recipients (5 ∷ [])).recipients
unfolding decrypt_entry decrypt_recipient key_management message_key_parameters is_key_decrypter
    is_verifier is_content_encrypter index
none_nil p = ((λ q. absurd (cc)), ((λ q. absurd (cc)), tt))

decrypt_all-eq_decrypt_example :
    (decrypt_all suite (two_recipients (5 ∷ [])) secret).result
    ≡ decrypt suite (two_recipients (5 ∷ [])) secret
decrypt_all-eq_decrypt_example =
    decrypt_all-eq_decrypt suite (two_recipients (5 ∷ [])) secret (λ p q. none_nil p)

-- Decrypt gives the empty plaintext of a message that DecryptAll refuses.
opened_empty : decrypt suite (two_recipients []) secret ≡ ok none
unfolding decrypt prepare_decryption content_encryption unprotected_enc check_headers
    check_recipients check_recipient recipient_members members Codec.marshal authenticated_data
    try_recipients decrypt_entry decrypt_recipient key_management message_key_parameters
    key_parameters is_key_decrypter is_verifier is_content_encrypter index decompress
opened_empty = refl

none_holds : NoneHolds suite (two_recipients []) secret prepared (two_recipients []).recipients
unfolding decrypt_entry decrypt_recipient key_management message_key_parameters is_key_decrypter
    is_verifier is_content_encrypter index
none_holds = (inl (decryption_failed ∷ [], refl), (inr refl, tt))

decrypt_all-fails_example :
    (e : Error) × ((decrypt_all suite (two_recipients []) secret).result ≡ err e)
decrypt_all-fails_example =
    decrypt_all-fails suite (two_recipients []) secret prepared (is_prepared []) none_holds

abbrev zipped : Header
zipped = record header { compression_algorithm = deflate }

decompress_iff_example : decompress suite zipped (some (5 ∷ [])) ≡ ok (some (5 ∷ []))
decompress_iff_example =
    (decompress_iff suite zipped (some (5 ∷ [])) (5 ∷ []) (λ q. absurd (cc))).1
      (refl, (refl, omega arith))
