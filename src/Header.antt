-- ===== src/Header.antt =====
-- The package header: the JOSE header (header/header.go).
pub mod Critical
pub mod Fields
pub mod Codec
pub mod Members
pub mod RoundTrip
pub mod Kept
pub mod Agreed
mod Tests
