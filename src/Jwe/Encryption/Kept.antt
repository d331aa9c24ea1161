-- ===== src/Jwe/Encryption/Kept.antt =====
-- The encoded protected header of a message that is encrypted again, jwe/jwe.go.
use golang_jwt_ci_test.Prelude.{
  ◌≡◌, ◌≢◌, ap, sym, ◌∙◌, Bool, true, false, Option, none, some, List, [], arith, Octets, ◌==◌,
  nat_same, list_same, list_eqb_iff, if◌then◌else◌,
}
use golang_jwt_ci_test.Errors.{ok, >>=-eq_ok}
use golang_jwt_ci_test.Header.Fields.{Header, KeyParameters}
use golang_jwt_ci_test.Header.Codec.{set_encoded}
use golang_jwt_ci_test.Header.Codec
use golang_jwt_ci_test.Header.Agreed.{ephemeral_key, set_key_parameters}
use golang_jwt_ci_test.Jwe.Message.{Message}
use golang_jwt_ci_test.Jwe.Decryption.{is_only}
use golang_jwt_ci_test.Jwe.Encryption.{RecipientKey, Sealer, encrypt_to}
use golang_jwt_ci_test.Jwe.Encryption.Steps.{encrypt_to-Prepared, keyed-eq_ok}

abbrev pub encoded_of : Option Header → Octets
encoded_of none = []
encoded_of (some h) = h.encoded_header

marshal_kept :
    (s : Sealer) (h : Header) (encoded : Octets)
    → h.encoded_header ≢ []
    → Codec.marshal s.header_text h ≡ ok encoded
    → encoded ≡ h.encoded_header
unfolding Codec.marshal
marshal_kept s h encoded n q =
    let kept : (h.encoded_header == []) ≡ false =
      ground (arith, n, list_eqb_iff h.encoded_header []) in
    ground (arith, kept, q)

set-encoded :
    (s : Sealer) (p : KeyParameters) (h h' : Header)
    → set_key_parameters s.key_library p h ≡ ok h'
    → h'.encoded_header ≡ h.encoded_header
unfolding set_key_parameters
set-encoded s p h h' q =
    let (epk, made, q1) = >>=-eq_ok (ephemeral_key s.key_library p.ephemeral_public_key) _ q in
    ground (arith, q1)

set_either :
    (s : Sealer) (p : KeyParameters) (h h' : Header) (only : Bool)
    → (if only then set_key_parameters s.key_library p h else ok h) ≡ ok h'
    → h'.encoded_header ≡ h.encoded_header
set_either s p h h' true q = set-encoded s p h h' q
set_either s p h h' false q = ground (arith, q)

from_some : {a b : Header} → some a ≡ some b → a ≡ b
from_some h = cc

-- Encryption of a message with a protected header that keeps its encoded octets sends those octets
-- again: the key parameters that this encryption made are not in them.
pub encrypt_to-encoded :
    (s : Sealer) (m m' : Message) (h : Header) (plaintext : Octets) (recipients : List RecipientKey)
    → m.protected_header ≡ some h
    → h.encoded_header ≢ []
    → encrypt_to s m plaintext recipients ≡ ok m'
    → encoded_of m'.protected_header ≡ h.encoded_header
unfolding set_encoded
encrypt_to-encoded s m m' h plaintext recipients q n done =
    let p = encrypt_to-Prepared s m m' plaintext recipients done in
    let k = p.is_sealed in
    let (set, made, b) =
      keyed-eq_ok s m p.between p.header (is_only recipients) p.encrypted p.parameters p.is_keyed in
    let same : p.header ≡ h = from_some (sym p.is_header ∙ q) in
    let under_way : k.header ≡ set = from_some (sym k.is_header ∙ ap (λ x. x.protected_header) b) in
    let stays : k.header.encoded_header ≡ h.encoded_header =
      ap (λ x. x.encoded_header) under_way
      ∙ set_either s p.parameters p.header set (is_only recipients) made
      ∙ ap (λ x. x.encoded_header) same in
    ap (λ x. encoded_of x.protected_header) k.is_result
    ∙ marshal_kept s k.header k.encoded (λ e. n (sym stays ∙ e)) k.is_encoded
    ∙ stays
