-- ===== src/Lib.antt =====
-- A model of the Go module github.com/iscultas/jwt-go, an implementation of JSON Web Tokens,
-- with the theorems on its verification path and on the codecs and ciphers that the path rests
-- on.
--
-- The program. A caller makes or reads a token (token.go) and calls Verify with a key source and
-- a configuration. Verify makes the pending signatures, takes a JWK Set from the source, and
-- checks the signatures: each has a protected header (header/header.go) and octets
-- (jws/signature.go), and the keys of the set that suit its algorithm (jwk/key.go) are tried,
-- together with a key that the header itself carries where a policy accepts it (headerkey.go).
-- For want of a key the source is refreshed once. An encrypted token goes to Decrypt
-- (encryption.go), which opens the message (jwe/jwe.go) with a key of the source and reads
-- claims or a signed token there. A source over HTTPS (jwk/remote/remote.go) keeps its keys and
-- makes one request at a time. The claims are checked last, and the IDStore is asked at the very
-- end. The package jwa has the algorithms; all texts are base64url
-- (internal/base64url/base64url.go).
--
-- The files.
--   Prelude: Boolean tests, lists over the native numbers, Go's equality as an interface, signed
--     integers for instants and durations, and exclusive or.
--   Errors: the sentinel errors; an error is the list of those that errors.Is finds in it, so that
--     a test for one error is a test of membership.
--   Streams: io.ReadAll over a limited reader.
--   Base64Url: internal/base64url/base64url.go. Quanta, RoundTrip and Canonical are its proofs.
--   Jwa: Algorithm (the registry of jwa/algorithm.go), Material (its key checks), KeyWrap
--     (jwa/aes_key_wrap.go), CbcHmac (jwa/aes_cbc_hmac_sha_2.go), ConcatKdf (jwa/concat_kdf.go),
--     Gcm (jwa/aes_gcm.go and aes_gcm_key_wrap.go), Pbes2 (jwa/pbes2.go), Direct (jwa/direct.go),
--     Management (which algorithms manage keys, and the sizes of content encryption).
--   Jwk: Key and KeySet (suitable, weight, Key and Candidates of jwk/key.go), Operations
--     (checkOperations), Public (NewKey and Public), Remote (jwk/remote/remote.go): the request and
--     the decisions of load, and in Remote/System goroutines as a step relation.
--   Header: Critical (checkCritical), Fields (the struct and its options), Codec (MarshalJSON,
--     UnmarshalJSON, Marshal, Unmarshal), Members (Members, MembersIn, IsZero), Agreed (SetKeyParameters)
--     of header/header.go.
--   Jws: jws/signature.go, with Checks for what its two JSON operations accept.
--   Jwe: Message (jwe/jwe.go: the state and the header checks), Decryption (Decrypt, DecryptAll),
--     Encryption (Encrypt, EncryptTo), Compact and Json (the forms of jwe/serialization.go).
--   Jwt: Token (the state, the configuration and its options), Claims (checkClaims and the checks
--     it calls, requireClaims, mediatype.go), Keys (withKeys, headerkey.go), Signing (sign),
--     Verification (verifySignature, verifySignatures, Verify), Compact (Unmarshal and Marshal for
--     signed tokens), Options (NewToken and the options of the whole package), Encryption and Decryption
--     (encryption.go), Confirmation (confirmation.go). The folders hold the proofs.
--
-- How state is modelled. A method that changes its token returns the new token; the key source
-- and the IDStore have states of their own, which Verify passes through (Outcome). Calls that
-- fail give a Result. A nil pointer is none, a nil slice and an empty one are the same list
-- unless a definition says otherwise, and a Go string is its list of octets. The goroutines that
-- share a source move one critical section at a time, in any sequence, with time passing between
-- the moves.
--
-- What is a parameter. The block cipher, the CBC mode, AES-GCM, HMAC and SHA-256, PBKDF2, the
-- signature schemes, the key management and content encryption as a message calls them,
-- crypto/rand, compress/flate, the response of an HTTP client, the JSON encoder and decoder, the
-- parsing of URLs, strings.EqualFold, crypto/x509 and the functions of a caller (rules,
-- policies, the IDStore, the key source). What the proofs use of the ciphers is written in
-- records of laws beside them (IsCipher, IsCbc, IsAead, Matches).
--
-- Bounds. Every function but one is structural recursion on a list or on a number that the code
-- itself counts to. The rounds of the key derivation (derive_rounds) have fuel: one more than
-- there are octets to derive, which is enough since each round adds the octets of a hash. A
-- uint16 weight, the 64-bit counter of the key wrap and the 32-bit lengths of the key derivation
-- wrap as in Go; instants and durations do not.
--
-- Not modelled: the JSON serialization of a token with more signatures, the JSON forms of keys
-- and claims, thumbprints and certificates, the signature schemes, ECDH-ES and the RSA key
-- encryption of jwa, two recipients that share one header in memory, and how long an operation
-- takes.
pub mod Prelude
pub mod Errors
pub mod Streams
pub mod Base64Url
pub mod Jwa
pub mod Jwk
pub mod Header
pub mod Jws
pub mod Jwe
pub mod Jwt
