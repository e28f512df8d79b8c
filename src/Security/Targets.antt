-- ===== src/Security/Targets.antt =====
-- security/src/target-policy.ts: the targets that a browser may be sent to.
pub mod Addresses
pub mod Policy
pub mod Joined
pub mod Permitted
pub mod Chain
pub mod Tests
