-- ===== src/Jwe.antt =====
-- The package jwe: messages with recipients, their decryption and encryption, and their two
-- serializations.
pub mod Message
pub mod Decryption
pub mod Compact
pub mod Json
pub mod Encryption
mod Tests
