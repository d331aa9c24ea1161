-- ===== src/Jwe/Decryption.antt =====
-- Decrypt and DecryptAll of jwe/jwe.go. A plaintext is an Option: a nil slice is `none`, because
-- DecryptAll tells it apart.
pub mod Opens
pub mod Outcomes
pub mod Size
use golang_jwt_ci_test.Prelude.{
  ℕ, zero, ◌+◌, ◌^◌, ◌≡◌, Bool, true, false, not, ◌&&◌, ◌||◌, Option, none, some, List, [], ◌∷◌,
  ◌++◌, Octets, text, ◌==◌, nat_same, list_same, contains_func, is_empty, if◌then◌else◌, length,
  take, ltb,
}
use golang_jwt_ci_test.Prelude.Int.{ℤ, pos}
use golang_jwt_ci_test.Errors.{
  Result, Error, ok, err, ◌>>=◌, ◌>>◌, guard, or_fail, malformed_message, unsupported_algorithm,
  decryption_failed, oversized_plaintext, is_decryption_failed, is_unsupported_algorithm,
  is_malformed_message,
}
use golang_jwt_ci_test.Streams.{Stream, read_limited}
use golang_jwt_ci_test.Jwa.Algorithm.{Algorithm}
use golang_jwt_ci_test.Jwa.Material.{Material}
use golang_jwt_ci_test.Jwa.Management.{is_key_decrypter}
use golang_jwt_ci_test.Header.Fields.{Header, KeyParameters, key_parameters}
use golang_jwt_ci_test.Header.Codec.{Text}
use golang_jwt_ci_test.Header.Codec
use golang_jwt_ci_test.Header.Members.{Names}
use golang_jwt_ci_test.Jwe.Message.{
  Recipient, Message, content_encryption, key_management, authenticated_data, check_headers,
}

abbrev pub Slice : Type 0
Slice = Option Octets

-- The methods of jwa that a message calls, the JSON codec, and compress/flate: the octets that the
-- reader gives and the error after them.
pub record Suite : Type 0 where
  pub decrypt_key : Algorithm → Octets → Option Material → Algorithm → KeyParameters → Result Octets
  pub decrypt : Algorithm → Octets → Octets → Octets → Octets → Octets → Result Slice
  pub header_text : Text
  pub header_names : Names
  pub inflate : Octets → Stream

abbrev overlay : Octets → Octets → Octets
overlay base [] = base
overlay base (o ∷ os) = o ∷ os

abbrev overlay_count : ℤ → ℤ → ℤ
overlay_count base (pos zero) = base
overlay_count base over = over

abbrev overlay_key : Option Material → Option Material → Option Material
overlay_key base none = base
overlay_key base (some k) = some k

-- mergeKeyParameters
unfoldable pub merge_key_parameters : KeyParameters → KeyParameters → KeyParameters
merge_key_parameters base over = record {
  ephemeral_public_key = overlay_key base.ephemeral_public_key over.ephemeral_public_key;
  agreement_party_u_info = overlay base.agreement_party_u_info over.agreement_party_u_info;
  agreement_party_v_info = overlay base.agreement_party_v_info over.agreement_party_v_info;
  initialization_vector = overlay base.initialization_vector over.initialization_vector;
  authentication_tag = overlay base.authentication_tag over.authentication_tag;
  pbes2_salt_input = overlay base.pbes2_salt_input over.pbes2_salt_input;
  pbes2_count = overlay_count base.pbes2_count over.pbes2_count;
}

abbrev merge_header : KeyParameters → Option Header → KeyParameters
merge_header base none = base
merge_header base (some h) = merge_key_parameters base (key_parameters h)

-- keyParameters, for the protected header
unfoldable pub message_key_parameters : Header → Message → Recipient → KeyParameters
message_key_parameters protected_header m r =
    merge_header (merge_header (key_parameters protected_header) m.shared_header) r.header

-- The literal of header.Deflate.
abbrev pub deflate : Octets
deflate = text "DEF"

abbrev pub maximum_plaintext_size : ℕ
maximum_plaintext_size = 2 ^ 24

abbrev pub malformed_or {ℓ} : {A : Type ℓ} → Result A → Result A
malformed_or (ok a) = ok a
malformed_or (err e) = err (malformed_message ∷ e)

abbrev pub contents : Slice → Octets
contents none = []
contents (some octets) = octets

abbrev pub is_only {ℓ} : {A : Type ℓ} → List A → Bool
is_only [] = false
is_only (a ∷ rest) = is_empty rest

unfoldable pub decryption_failure : Message → Option Error → Error
decryption_failure m none = decryption_failed ∷ []
decryption_failure m (some e) =
    if is_only m.recipients && not (contains_func is_decryption_failed e)
    then e
    else decryption_failed ∷ []

unfoldable pub outcome_failure : Message → Error → Error
outcome_failure m e =
    if contains_func is_unsupported_algorithm e || contains_func is_malformed_message e
    then e
    else decryption_failure m (some e)

-- Succeeded is that there is no error; the recipient is the one at the same index.
abbrev pub RecipientOutcome : Type 0
RecipientOutcome = Option Error

-- The plaintext and the error that DecryptAll returns, with its outcomes.
pub record Report : Type 0 where
  pub result : Result Slice
  pub outcomes : List RecipientOutcome

abbrev pub outcome_of : Message → Result Slice → RecipientOutcome
outcome_of m (ok plaintext) = none
outcome_of m (err e) = some (outcome_failure m e)

abbrev pub failure_after : Option Error → Result Slice → Option Error
failure_after failure (ok plaintext) = failure
failure_after failure (err e) = some e

-- The first plaintext that is not nil.
abbrev pub plaintext_after : Slice → Result Slice → Slice
plaintext_after none (ok plaintext) = plaintext
plaintext_after none (err e) = none
plaintext_after (some octets) r = some octets

module _ (s : Suite) where
  unfoldable pub decompress : Header → Slice → Result Slice
  decompress protected_header plaintext =
      if protected_header.compression_algorithm == [] then ok plaintext else do
        guard (protected_header.compression_algorithm == deflate) (malformed_message ∷ [])
        octets ←
            malformed_or
              (read_limited (maximum_plaintext_size + 1) (s.inflate (contents plaintext)))
        guard (not (ltb maximum_plaintext_size (length octets))) (oversized_plaintext ∷ [])
        ok (some octets)

  -- The protected header, the content encryption and the additional authenticated data.
  unfoldable pub prepare_decryption : Message → Result (Header × Algorithm × Octets)
  prepare_decryption m = do
    encryption ← content_encryption m
    guard (not (is_empty m.recipients)) (malformed_message ∷ [])
    check_headers s.header_text s.header_names m
    protected_header ← or_fail m.protected_header (malformed_message ∷ [])
    encoded_protected_header ← Codec.marshal s.header_text protected_header
    ok (protected_header, encryption, authenticated_data m encoded_protected_header)

  module _ (m : Message) (key : Option Material) where
    unfoldable pub decrypt_recipient : Header × Algorithm × Octets → Recipient → Result Slice
    decrypt_recipient (protected_header, encryption, aad) r = elim r.unsupported [
      | some e ↦ err e
      | none ↦ do
        algorithm ← key_management m r
        guard (is_key_decrypter algorithm) (unsupported_algorithm ∷ [])
        cek ←
            s.decrypt_key algorithm r.encrypted_key key encryption
              (message_key_parameters protected_header m r)
        s.decrypt encryption m.ciphertext cek m.initialization_vector aad m.authentication_tag
    ]

    -- A nil recipient does not pass check_headers, which runs before.
    unfoldable pub decrypt_entry : Header × Algorithm × Octets → Option Recipient → Result Slice
    decrypt_entry p none = err (malformed_message ∷ [])
    decrypt_entry p (some r) = decrypt_recipient p r

    -- The loop of Decrypt, with the last failure so far.
    unfoldable pub try_recipients :
        Header × Algorithm × Octets → Option Error → List (Option Recipient) → Result Slice
    try_recipients p failure [] = err (decryption_failure m failure)
    try_recipients p failure (r ∷ rest) = elim (decrypt_entry p r) [
      | ok plaintext ↦ decompress p.0 plaintext
      | err e ↦ try_recipients p (some e) rest
    ]

    unfoldable pub decrypt : Result Slice
    decrypt = do p ← prepare_decryption m; try_recipients p none m.recipients

    abbrev pub finish_all : Header → Slice → Option Error → Result Slice
    finish_all protected_header none failure = err (decryption_failure m failure)
    finish_all protected_header (some octets) failure = decompress protected_header (some octets)

    -- The loop of DecryptAll, with the plaintext and the last failure so far.
    unfoldable pub try_all :
        Header × Algorithm × Octets → Slice → Option Error → List (Option Recipient) → Report
    try_all p plaintext failure [] = record {
      result = finish_all p.0 plaintext failure;
      outcomes = [];
    }
    try_all p plaintext failure (r ∷ rest) =
        let opened = decrypt_entry p r in
        let later =
          try_all p (plaintext_after plaintext opened) (failure_after failure opened) rest in
        record { result = later.result; outcomes = outcome_of m opened ∷ later.outcomes }

    unfoldable pub decrypt_all : Report
    decrypt_all = elim (prepare_decryption m) [
      | err e ↦ record { result = err e; outcomes = [] }
      | ok p ↦ try_all p none none m.recipients
    ]
