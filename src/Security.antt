-- ===== src/Security.antt =====
-- packages/security/src: the tokens that open a relay connection.
pub mod Format
pub mod Claims
pub mod Token
pub mod Issued
pub mod Verified
pub mod Targets
pub mod Redaction
pub mod Tests
