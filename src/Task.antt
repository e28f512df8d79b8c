-- ===== src/Task.antt =====
-- packages/task-core/src/task-state.ts: the life of a managed task.
pub mod Record
pub mod Transition
pub mod Invariant
pub mod Step
pub mod Steps
pub mod Lifetime
pub mod Tests
