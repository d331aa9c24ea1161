-- ===== src/Jwa.antt =====
-- The package jwa: the algorithms of RFC 7518 (jwa/*.go). AES, the hashes and the signature schemes
-- themselves are Go's crypto packages and enter as parameters.
pub mod Bytes
pub mod Material
pub mod KeyWrap
pub mod CbcHmac
pub mod ConcatKdf
pub mod Algorithm
pub mod Management
pub mod Pbes2
pub mod Direct
pub mod Gcm
