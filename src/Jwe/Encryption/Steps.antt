-- ===== src/Jwe/Encryption/Steps.antt =====
-- The steps of EncryptTo in jwe/jwe.go, read off a call that succeeds.
use golang_jwt_ci_test.Prelude.{
  ◌≡◌, sym, Bool, not, Option, some, List, [], ◌∷◌, Octets, ◌==◌, nat_same, list_same, list_eqb_iff,
  is_empty, if◌then◌else◌,
}
use golang_jwt_ci_test.Errors.{
  from_ok, or_fail-eq_ok, guard-eq_ok, ok, guard, or_fail, >>=-eq_ok, malformed_message,
  compressed_plaintext,
}
use golang_jwt_ci_test.Jwa.Algorithm.{Algorithm}
use golang_jwt_ci_test.Jwa.Management.{iv_size}
use golang_jwt_ci_test.Header.Fields.{Header, KeyParameters, key_parameters}
use golang_jwt_ci_test.Header.Codec.{set_encoded}
use golang_jwt_ci_test.Header.Codec
use golang_jwt_ci_test.Header.Agreed.{set_key_parameters}
use golang_jwt_ci_test.Jwe.Message.{
  Recipient, Message, content_encryption, authenticated_data, check_headers,
}
use golang_jwt_ci_test.Jwe.Decryption.{is_only}
use golang_jwt_ci_test.Jwe.Encryption.{
  RecipientKey, Sealer, vector, encrypt_to, encrypt_keys, keyed, seal,
}

module _ (s : Sealer) where
  -- What the content encryption took and gave, and the message after it.
  pub record Sealed (m m' : Message) (encryption : Algorithm) (plaintext cek : Octets)
      : Type 0 where
    pub header : Header
    pub iv : Octets
    pub encoded : Octets
    pub ciphertext : Octets
    pub tag : Octets
    pub is_header : m.protected_header ≡ some header
    pub is_encoded : Codec.marshal s.header_text header ≡ ok encoded
    pub is_encrypted :
        s.encrypt encryption plaintext cek iv (authenticated_data m encoded) ≡ ok (ciphertext, tag)
    pub is_result : m' ≡ record m {
      protected_header = some (set_encoded encoded header);
      initialization_vector = iv;
      ciphertext = ciphertext;
      authentication_tag = tag;
    }

  pub seal-Sealed :
      (m m' : Message) (encryption : Algorithm) (plaintext cek : Octets)
      → seal s m encryption plaintext cek ≡ ok m'
      → Sealed m m' encryption plaintext cek
  unfolding seal
  seal-Sealed m m' encryption plaintext cek done =
      let (u, checked, d1) = >>=-eq_ok (check_headers s.header_text s.header_names m) _ done in
      let (iv, drawn, d2) = >>=-eq_ok (s.random vector (iv_size encryption)) _ d1 in
      let (h, found, d3) = >>=-eq_ok (or_fail m.protected_header (malformed_message ∷ [])) _ d2 in
      let (encoded, written, d4) = >>=-eq_ok (Codec.marshal s.header_text h) _ d3 in
      let (given, encrypted, d5) =
        >>=-eq_ok (s.encrypt encryption plaintext cek iv (authenticated_data m encoded)) _ d4 in
      record {
        header = h;
        iv = iv;
        encoded = encoded;
        ciphertext = given.0;
        tag = given.1;
        is_header = or_fail-eq_ok m.protected_header _ found;
        is_encoded = written;
        is_encrypted = encrypted;
        is_result = sym (from_ok d5);
      }

  -- The parts of EncryptTo before the content encryption.
  pub record Prepared (m m' : Message) (plaintext : Octets) (recipients : List RecipientKey)
      : Type 0 where
    pub encryption : Algorithm
    pub header : Header
    pub cek : Octets
    pub encrypted : List (Option Recipient)
    pub parameters : KeyParameters
    pub between : Message
    pub is_encryption : content_encryption m ≡ ok encryption
    pub is_header : m.protected_header ≡ some header
    pub is_plain : header.compression_algorithm ≡ []
    pub is_keys :
        encrypt_keys s m encryption (key_parameters header) recipients
        ≡ ok (cek, encrypted, parameters)
    pub is_keyed : keyed s m header (is_only recipients) encrypted parameters ≡ ok between
    pub is_sealed : Sealed between m' encryption plaintext cek

  pub encrypt_to-Prepared :
      (m m' : Message) (plaintext : Octets) (recipients : List RecipientKey)
      → encrypt_to s m plaintext recipients ≡ ok m'
      → Prepared m m' plaintext recipients
  unfolding encrypt_to
  encrypt_to-Prepared m m' plaintext recipients done =
      let (u, some_recipient, d1) =
        >>=-eq_ok (guard (not (is_empty recipients)) (malformed_message ∷ [])) _ done in
      let (encryption, named, d2) = >>=-eq_ok (content_encryption m) _ d1 in
      let (h, found, d3) = >>=-eq_ok (or_fail m.protected_header (malformed_message ∷ [])) _ d2 in
      let (v, plain, d4) =
        >>=-eq_ok (guard (h.compression_algorithm == []) (compressed_plaintext ∷ [])) _ d3 in
      let (keys, made, d5) =
        >>=-eq_ok (encrypt_keys s m encryption (key_parameters h) recipients) _ d4 in
      let (between, set, d6) = >>=-eq_ok (keyed s m h (is_only recipients) keys.1 keys.2) _ d5 in
      record {
        encryption = encryption;
        header = h;
        cek = keys.0;
        encrypted = keys.1;
        parameters = keys.2;
        between = between;
        is_encryption = named;
        is_header = or_fail-eq_ok m.protected_header _ found;
        is_plain = (list_eqb_iff h.compression_algorithm []).0 (guard-eq_ok _ _ plain);
        is_keys = made;
        is_keyed = set;
        is_sealed = seal-Sealed between m' encryption plaintext keys.0 d6;
      }

  -- The header of the message under way: with the key parameters where there is one recipient.
  pub keyed-eq_ok :
      (m between : Message) (h : Header) (only : Bool) (encrypted : List (Option Recipient))
      (p : KeyParameters)
      → keyed s m h only encrypted p ≡ ok between
      → (set : Header) × ((if only then set_key_parameters s.key_library p h else ok h) ≡ ok set)
        × (between ≡ record m { protected_header = some set; recipients = encrypted })
  unfolding keyed
  keyed-eq_ok m between h only encrypted p done =
      let (set, made, d) =
        >>=-eq_ok (if only then set_key_parameters s.key_library p h else ok h) _ done in
      (set, made, sym (from_ok d))
