-- ===== src/Task/Step.antt =====
-- task-core/src/task-state.ts: the transitions of a task as a relation, read off the events.
use surfgate.Common.{ℕ, ◌≤◌, ◌<◌, ◌≡◌, ◌⊎◌, false, some}
use surfgate.Contracts.Tasks.{
  TaskResult, TaskFailureCode, Timestamp, queued, running, retry_pending, result_type, request_type,
}
use surfgate.Contracts.Text.{Text}
use surfgate.Task.Record.{TaskRecord, is_terminal}
use surfgate.Task.Transition.{
  TransitionEvent, claim, reclaim, succeed, schedule_retry, fail, cancel, bump_version, leased,
  as_cancelled, as_succeeded, as_retry_pending, as_failed,
}

-- A task that waits for a worker at `at`: it is new, or its retry time has come.
abbrev pub IsDue : TaskRecord → Timestamp → Type 0
IsDue t at =
    (t.status ≡ queued)
    ⊎ ((t.status ≡ retry_pending) × ((n : ℕ) × (t.next_attempt_at ≡ some n) × (n ≤ at)))

-- A task whose worker has let its lease run out.
abbrev pub IsAbandoned : TaskRecord → Timestamp → Type 0
IsAbandoned t at = (t.status ≡ running) × ((n : ℕ) × (t.lease_expires_at ≡ some n) × (n ≤ at))

pub data Step (t : TaskRecord) : TransitionEvent → TaskRecord → Type 0 where
  start :
      (at : Timestamp) (token : Text) (lease : Timestamp)
      → IsDue t at
      → t.attempt_count < t.max_attempts
      → at < lease
      → Step t (claim at token lease) (bump_version (leased t at token lease))
  take_over :
      (at : Timestamp) (token : Text) (lease : Timestamp)
      → IsAbandoned t at
      → t.attempt_count < t.max_attempts
      → at < lease
      → Step t (reclaim at token lease) (bump_version (leased t at token lease))
  finish :
      (at : Timestamp) (r : TaskResult)
      → t.status ≡ running
      → result_type r ≡ request_type t.request
      → Step t (succeed at r) (bump_version (as_succeeded t at r))
  postpone :
      (at retry_at : Timestamp) (code : TaskFailureCode)
      → t.status ≡ running
      → t.attempt_count < t.max_attempts
      → at < retry_at
      → Step t (schedule_retry at retry_at code) (bump_version (as_retry_pending t at retry_at))
  give_up :
      (at : Timestamp) (code : TaskFailureCode)
      → t.status ≡ running
      → Step t (fail at code) (bump_version (as_failed t at code))
  stop :
      (at : Timestamp)
      → is_terminal t.status ≡ false
      → Step t (cancel at) (bump_version (as_cancelled t at))
