-- ===== src/TaskStore.antt =====
-- task-postgres/src/repository.ts: the repository of managed tasks in PostgreSQL.
mod Artifact
pub mod Transaction
pub mod Database
pub mod Sessions
pub mod Create
pub mod Change
pub mod Claim
pub mod Sound
pub mod Effects
pub mod Changed
pub mod Exhausted
pub mod Exclusive
pub mod Claimed
pub mod Limit
pub mod Idempotent
pub mod Retry
pub mod Quota
mod Tests
