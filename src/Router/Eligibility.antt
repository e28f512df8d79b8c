-- ===== src/Router/Eligibility.antt =====
-- router/src/eligibility.ts: the hard constraints on a candidate.
pub mod Rules
pub mod Reasons
pub mod Sound
