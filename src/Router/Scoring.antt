-- ===== src/Router/Scoring.antt =====
-- router/src/scoring.ts: the score of an eligible candidate.
pub mod Score
pub mod Range
