-- ===== src/Router.antt =====
-- packages/router/src: deterministic routing and bounded fallback.
pub mod Reason
pub mod Identity
pub mod Fallback
pub mod Policy
pub mod Candidate
pub mod Input
pub mod Eligibility
pub mod Scoring
pub mod Ranking
mod Tests
