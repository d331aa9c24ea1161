-- ===== src/Jwe/Encryption/RoundTrip.antt =====
-- Decrypt of jwe/jwe.go gives back what Encrypt was given.
use golang_jwt_ci_test.Prelude.{
  ◌≡◌, List, true, refl, ap, sym, subst, ◌∙◌, Option, none, some, [], ◌∷◌, Octets,
}
use golang_jwt_ci_test.Errors.{ok}
use golang_jwt_ci_test.Jwa.Material.{Material}
use golang_jwt_ci_test.Header.Fields.{Header, key_parameters}
use golang_jwt_ci_test.Header.Codec.{set_encoded}
use golang_jwt_ci_test.Header.Codec
use golang_jwt_ci_test.Jwe.Message.{Recipient, Message, authenticated_data}
use golang_jwt_ci_test.Jwe.Decryption.{Slice, Suite, contents, decrypt}
use golang_jwt_ci_test.Jwe.Encryption.{RecipientKey, Sealer, recipient_of, encrypt}
use golang_jwt_ci_test.Jwe.Encryption.Steps.{encrypt_to-Prepared, keyed-eq_ok}
use golang_jwt_ci_test.Jwe.Encryption.Opened.{
  Matches, IsPublished, message_for, marshal-set_encoded, encrypter_decrypts, opened,
  set_parameters, one_key, content_encryption-protected, key_management-protected,
}

from_some : {a b : Header} → some a ≡ some b → a ≡ b
from_some h = cc

abbrev form :
    Header
    → Option Header
    → List (Option Recipient)
    → Octets
    → Octets
    → Octets
    → Option Octets
    → Message
form h shared rs iv ciphertext tag aad = record {
  protected_header = some h;
  shared_header = shared;
  recipients = rs;
  initialization_vector = iv;
  ciphertext = ciphertext;
  authentication_tag = tag;
  additional_authenticated_data = aad;
}

-- A message that Encrypt made for one key, without a shared header and with no ephemeral key but a
-- public one in its protected header, decrypts with the key that matches it to the octets that were
-- encrypted.
pub decrypt-encrypt :
    (s : Sealer) (d : Suite) (m m' : Message) (plaintext : Octets)
    (sealing opening : Option Material) (given : Header)
    → Matches s d sealing opening
    → m.protected_header ≡ some given
    → IsPublished (key_parameters given)
    → m.shared_header ≡ none
    → encrypt s m plaintext sealing ≡ ok m'
    → (slice : Slice) × (decrypt d m' opening ≡ ok slice) × (contents slice ≡ plaintext)
unfolding encrypt set_encoded authenticated_data key_parameters
decrypt-encrypt s d m m' plaintext sealing opening given matches at clear n done =
    let rk : RecipientKey = record { header = none; key = sealing } in
    let p = encrypt_to-Prepared s m m' plaintext (rk ∷ []) done in
    let k = p.is_sealed in
    let (alg, ek, named, able, made, only) =
      one_key s m rk p.encryption (key_parameters p.header) p.cek p.encrypted p.parameters
        p.is_keys in
    let (published, unwrapped) =
      matches.opens_key alg p.encryption (key_parameters p.header) p.parameters p.cek ek
        (subst (λ h. IsPublished (key_parameters h)) (from_some (sym at ∙ p.is_header)) clear)
        made in
    let (set, with_parameters, b) =
      keyed-eq_ok s m p.between p.header true p.encrypted p.parameters p.is_keyed in
    let (fa, fe, fz, fk) = set_parameters s p.parameters p.header set published with_parameters in
    let under_way : k.header ≡ set = from_some (sym k.is_header ∙ ap (λ x. x.protected_header) b) in
    let (slice, o, same) =
      matches.opens_content p.encryption plaintext p.cek k.iv
        (authenticated_data p.between k.encoded) k.ciphertext k.tag k.is_encrypted in
    let h1 = set_encoded k.encoded set in
    let aad = m.additional_authenticated_data in
    let whole : m' ≡ message_for h1 aad ek k.iv k.ciphertext k.tag =
      k.is_result
      ∙ ap
          (λ x.
            form (set_encoded k.encoded k.header) x.shared_header x.recipients k.iv k.ciphertext
              k.tag x.additional_authenticated_data)
          b
      ∙ ap
          (λ h.
            form (set_encoded k.encoded h) m.shared_header p.encrypted k.iv k.ciphertext k.tag aad)
          under_way
      ∙ ap (λ x. form h1 x p.encrypted k.iv k.ciphertext k.tag aad) n
      ∙ ap (λ x. form h1 none x k.iv k.ciphertext k.tag aad) only in
    let written : Codec.marshal d.header_text h1 ≡ ok k.encoded =
      ap (λ t. Codec.marshal t h1) matches.same_text
      ∙ marshal-set_encoded s.header_text set k.encoded
          (ap (Codec.marshal s.header_text) (sym under_way) ∙ k.is_encoded) in
    let content : d.decrypt p.encryption k.ciphertext p.cek k.iv
          (authenticated_data (message_for h1 aad ek k.iv k.ciphertext k.tag) k.encoded) k.tag
        ≡ ok slice =
      sym (
        ap (λ y. d.decrypt p.encryption k.ciphertext p.cek k.iv y k.tag)
          (ap (λ x. authenticated_data x k.encoded) b))
      ∙ o in
    (
      slice,
      ap (λ x. decrypt d x opening) whole
          ∙ opened d h1 aad ek k.iv k.ciphertext k.tag k.encoded alg p.encryption p.cek opening
              slice
              (fa
                ∙ key_management-protected m p.header (recipient_of s none []) alg p.is_header n
                    refl named)
              (fe
                ∙ content_encryption-protected m p.header p.encryption p.is_header p.is_encryption)
              (fz ∙ p.is_plain) (encrypter_decrypts alg able) written
              (ap (d.decrypt_key alg ek opening p.encryption) fk ∙ unwrapped) content,
      same,
    )
