-- ===== src/Session.antt =====
-- apps/api/src: domain/session.ts, the life of a browser session, and the reconciler of sessions.
pub mod Record
pub mod Transition
pub mod Invariant
pub mod Step
pub mod Steps
pub mod Lifetime
pub mod Repository
pub mod Reached
pub mod Answers
pub mod Reconciler
pub mod Justified
pub mod Reconciled
pub mod ReconcilerTests
pub mod Tests
