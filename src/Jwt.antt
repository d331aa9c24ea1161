-- ===== src/Jwt.antt =====
-- The package jwt: the claims and signatures of a token and their verification.
pub mod Token
pub mod Claims
pub mod Keys
pub mod Signing
pub mod Verification
mod Tests
pub mod Compact
pub mod Options
pub mod Encryption
pub mod Decryption
pub mod Confirmation
