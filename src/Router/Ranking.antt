-- ===== src/Router/Ranking.antt =====
-- router/src/scoring.ts and router.ts: the ranking of the candidates, and the decision.
pub mod Rank
pub mod Order
pub mod Decision
pub mod Decide
pub mod Unordered
pub mod Sources
pub mod Ranked
pub mod Judged
