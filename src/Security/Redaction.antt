-- ===== src/Security/Redaction.antt =====
-- security/src/redaction.ts: the copy of a value for logs, without its secrets.
pub mod Keys
pub mod Visit
pub mod Clean
pub mod Unseen
pub mod Parts
pub mod Total
pub mod Tests
