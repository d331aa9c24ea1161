-- ===== src/Jwe/Encryption.antt =====
-- Encrypt, EncryptTo and encryptKeys of jwe/jwe.go. A recipient has a header of its own: the code
-- writes to a header that the caller gave, and two recipients with one header are not modelled. What a
-- call that fails leaves in the message is not modelled.
pub mod Steps
pub mod Opened
pub mod RoundTrip
pub mod Kept
use golang_jwt_ci_test.Prelude.{
  ℕ, zero, suc, ◌≡◌, Bool, true, false, not, ◌&&◌, Option, none, some, List, [], ◌∷◌, Octets, ◌==◌,
  nat_same, list_same, is_empty, if◌then◌else◌,
}
use golang_jwt_ci_test.Prelude.Int.{ℤ, ltb_ℤ}
use golang_jwt_ci_test.Errors.{
  Result, Error, ok, err, ◌>>=◌, ◌>>◌, guard, or_fail, malformed_message, unsupported_algorithm,
  compressed_plaintext, direct_key_management,
}
use golang_jwt_ci_test.Jwa.Algorithm.{Algorithm}
use golang_jwt_ci_test.Jwa.Material.{Material}
use golang_jwt_ci_test.Jwa.Management.{is_key_encrypter, is_key_wrapper, iv_size, content_key_size}
use golang_jwt_ci_test.Jwk.Public.{KeyLibrary}
use golang_jwt_ci_test.Header.Fields.{Header, KeyParameters, key_parameters}
use golang_jwt_ci_test.Header.Codec.{Text, set_encoded}
use golang_jwt_ci_test.Header.Codec
use golang_jwt_ci_test.Header.Members.{Names}
use golang_jwt_ci_test.Header.RoundTrip.{empty}
use golang_jwt_ci_test.Header.Agreed.{set_key_parameters}
use golang_jwt_ci_test.Jwe.Message.{
  Recipient, Message, content_encryption, key_management, authenticated_data, check_headers,
}
use golang_jwt_ci_test.Jwe.Decryption.{is_only}

pub record RecipientKey : Type 0 where
  pub header : Option Header
  pub key : Option Material

-- The two reads of crypto/rand in this package, and the size of each.
pub data Draw : Type 0 where
  content_key vector : Draw

-- The methods of jwa that a message calls, the JSON codec, the operations of Go key types,
-- crypto/rand, and Go's `==` of two ephemeral keys. A method of jwa reads crypto/rand too: the number
-- says for which recipient it is called.
pub record Sealer : Type 0 where
  pub encrypt_key :
      Algorithm
      → Option Material
      → Algorithm
      → KeyParameters
      → Result (Octets × Octets × KeyParameters)
  pub wrap_key :
      ℕ
      → Algorithm
      → Octets
      → Option Material
      → Algorithm
      → KeyParameters
      → Result (Octets × KeyParameters)
  pub encrypt : Algorithm → Octets → Octets → Octets → Octets → Result (Octets × Octets)
  pub random : Draw → ℕ → Result Octets
  pub same_key : Option Material → Option Material → Bool
  pub key_library : KeyLibrary
  pub header_text : Text
  pub header_names : Names

abbrev same_count : ℤ → ℤ → Bool
same_count a b = not (ltb_ℤ a b) && not (ltb_ℤ b a)

module _ (s : Sealer) where
  unfoldable pub parameters_equal : KeyParameters → KeyParameters → Bool
  parameters_equal a b =
      s.same_key a.ephemeral_public_key b.ephemeral_public_key
      && a.agreement_party_u_info == b.agreement_party_u_info
      && a.agreement_party_v_info == b.agreement_party_v_info
      && a.initialization_vector == b.initialization_vector
      && a.authentication_tag == b.authentication_tag
      && a.pbes2_salt_input == b.pbes2_salt_input
      && same_count a.pbes2_count b.pbes2_count

  -- `new(header.Header)` where there is none.
  abbrev own_header : Option Header → Header
  own_header none = empty
  own_header (some h) = h

  unfoldable pub wrap_header :
      KeyParameters → KeyParameters → Option Header → Result (Option Header)
  wrap_header protected_parameters parameters h =
      if parameters_equal protected_parameters parameters
      then ok h
      else do set ← set_key_parameters s.key_library parameters (own_header h); ok (some set)

  abbrev recipient_of : Option Header → Octets → Recipient
  recipient_of h encrypted_key = record {
    header = h;
    encrypted_key = encrypted_key;
    raw_header = [];
    unsupported = none;
  }

  module _ (m : Message) (encryption : Algorithm) (protected_parameters : KeyParameters) where
    -- encryptKeys for one recipient, with the parameters that it leaves.
    unfoldable pub encrypt_one :
        RecipientKey → Result (Octets × List (Option Recipient) × KeyParameters)
    encrypt_one rk = do
      algorithm ← key_management m (recipient_of rk.header [])
      guard (is_key_encrypter algorithm) (unsupported_algorithm ∷ [])
      (cek, encrypted_key, parameters) ←
          s.encrypt_key algorithm rk.key encryption protected_parameters
      ok (cek, some (recipient_of rk.header encrypted_key) ∷ [], parameters)

    unfoldable pub wrap_one : ℕ → Octets → RecipientKey → Result (Option Recipient)
    wrap_one n cek rk = do
      algorithm ← key_management m (recipient_of rk.header [])
      guard (is_key_wrapper algorithm) (direct_key_management ∷ [])
      (encrypted_key, parameters) ←
          s.wrap_key n algorithm cek rk.key encryption protected_parameters
      h ← wrap_header protected_parameters parameters rk.header
      ok (some (recipient_of h encrypted_key))

    -- The loop of encryptKeys for more recipients.
    unfoldable pub wrap_all : ℕ → Octets → List RecipientKey → Result (List (Option Recipient))
    wrap_all n cek [] = ok []
    wrap_all n cek (rk ∷ rest) = do
      r ← wrap_one n cek rk
      later ← wrap_all (suc n) cek rest
      ok (r ∷ later)

    unfoldable pub wrap_keys :
        List RecipientKey → Result (Octets × List (Option Recipient) × KeyParameters)
    wrap_keys rks = do
      cek ← s.random content_key (content_key_size encryption)
      encrypted ← wrap_all 0 cek rks
      ok (cek, encrypted, protected_parameters)

    unfoldable pub encrypt_keys :
        List RecipientKey → Result (Octets × List (Option Recipient) × KeyParameters)
    encrypt_keys (rk ∷ []) = encrypt_one rk
    encrypt_keys rks = wrap_keys rks

  -- The message past encryptKeys: its recipients, and the parameters of the only one.
  unfoldable pub keyed :
      Message → Header → Bool → List (Option Recipient) → KeyParameters → Result Message
  keyed m h only encrypted parameters = do
    set ← (if only then set_key_parameters s.key_library parameters h else ok h)
    ok (record m { protected_header = some set; recipients = encrypted })

  unfoldable pub seal : Message → Algorithm → Octets → Octets → Result Message
  seal m encryption plaintext cek = do
    check_headers s.header_text s.header_names m
    iv ← s.random vector (iv_size encryption)
    h ← or_fail m.protected_header (malformed_message ∷ [])
    encoded ← Codec.marshal s.header_text h
    (ciphertext, tag) ← s.encrypt encryption plaintext cek iv (authenticated_data m encoded)
    ok (record m {
      protected_header = some (set_encoded encoded h);
      initialization_vector = iv;
      ciphertext = ciphertext;
      authentication_tag = tag;
    })

  unfoldable pub encrypt_to : Message → Octets → List RecipientKey → Result Message
  encrypt_to m plaintext recipients = do
    guard (not (is_empty recipients)) (malformed_message ∷ [])
    encryption ← content_encryption m
    h ← or_fail m.protected_header (malformed_message ∷ [])
    guard (h.compression_algorithm == []) (compressed_plaintext ∷ [])
    (cek, encrypted, parameters) ← encrypt_keys m encryption (key_parameters h) recipients
    m' ← keyed m h (is_only recipients) encrypted parameters
    seal m' encryption plaintext cek

  unfoldable pub encrypt : Message → Octets → Option Material → Result Message
  encrypt m plaintext key = encrypt_to m plaintext (record { header = none; key = key } ∷ [])
