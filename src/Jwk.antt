-- ===== src/Jwk.antt =====
-- The package jwk: keys, their selection, their declared uses (jwk/key.go).
pub mod Key
pub mod Operations
pub mod KeySet
pub mod Public
pub mod Remote
