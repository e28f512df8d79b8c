-- ===== src/Router/Fallback.antt =====
-- packages/router/src/fallback.ts: which failures may be retried on another runtime, and the
-- states of an allocation with at most one fallback.
pub mod Classify
pub mod State
pub mod Transition
pub mod Invariant
pub mod Moves
pub mod Bounded
pub mod Tests
