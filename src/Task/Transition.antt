-- ===== src/Task/Transition.antt =====
-- task-core/src/task-state.ts: the events of a task and `applyTaskTransition`.
use surfgate.Common.{
  ◌+◌, Bool, true, false, not, ◌&&◌, Option, none, some, leb, ltb, guard, Result, ok, err, ◌>>=◌,
  ◌>>◌,
}
use surfgate.Contracts.Text.{Text}
use surfgate.Contracts.Tasks.{
  Timestamp, TaskResult, TaskStatus, TaskFailureCode, queued, running, retry_pending, succeeded,
  failed, cancelled, request_type, result_type, is_result, task_type_eq,
}
use surfgate.Task.Record.{TaskRecord, is_claim_token, is_terminal, is_running, parse_task}

pub data TransitionEvent : Type 0 where
  claim reclaim :
      (at : Timestamp) (claim_token : Text) (lease_expires_at : Timestamp) → TransitionEvent
  succeed : (at : Timestamp) (result : TaskResult) → TransitionEvent
  schedule_retry :
      (at next_attempt_at : Timestamp) (failure_code : TaskFailureCode) → TransitionEvent
  fail : (at : Timestamp) (failure_code : TaskFailureCode) → TransitionEvent
  cancel : (at : Timestamp) → TransitionEvent

abbrev pub event_at : TransitionEvent → Timestamp
event_at (claim at token lease) = at
event_at (reclaim at token lease) = at
event_at (succeed at result) = at
event_at (schedule_retry at next code) = at
event_at (fail at code) = at
event_at (cancel at) = at

-- `TaskTransitionEventSchema`
unfoldable pub is_event : TransitionEvent → Bool
is_event (claim at token lease) = is_claim_token token
is_event (reclaim at token lease) = is_claim_token token
is_event (succeed at result) = is_result result
is_event (schedule_retry at next code) = true
is_event (fail at code) = true
is_event (cancel at) = true

-- `TaskTransitionError`, or the `ZodError` of a schema.
pub data TaskError : Type 0 where
  invalid_state schema_error : TaskError

abbrev pub parsed {ℓ} : {A : Type ℓ} → Option A → Result TaskError A
parsed none = err schema_error
parsed (some a) = ok a

-- `{ ...task, version: task.version + 1 }`
abbrev pub bump_version : TaskRecord → TaskRecord
bump_version t = record t { version = t.version + 1 }

-- `next`; the caller has put in the changes.
unfoldable pub next : TaskRecord → Result TaskError TaskRecord
next t = parsed (parse_task (bump_version t))

-- The changes that each kind of event makes.
abbrev pub leased : TaskRecord → Timestamp → Text → Timestamp → TaskRecord
leased t at token lease = record t {
  status = running;
  attempt_count = t.attempt_count + 1;
  updated_at = at;
  started_at = some at;
  next_attempt_at = none;
  claim_token = some token;
  lease_expires_at = some lease;
  failure_code = none;
}

abbrev pub as_cancelled : TaskRecord → Timestamp → TaskRecord
as_cancelled t at = record t {
  status = cancelled;
  updated_at = at;
  completed_at = some at;
  claim_token = none;
  lease_expires_at = none;
  next_attempt_at = none;
}

abbrev pub as_succeeded : TaskRecord → Timestamp → TaskResult → TaskRecord
as_succeeded t at result = record t {
  status = succeeded;
  result = some result;
  updated_at = at;
  completed_at = some at;
  claim_token = none;
  lease_expires_at = none;
}

abbrev pub as_retry_pending : TaskRecord → Timestamp → Timestamp → TaskRecord
as_retry_pending t at next_attempt = record t {
  status = retry_pending;
  failure_code = none;
  updated_at = at;
  next_attempt_at = some next_attempt;
  claim_token = none;
  lease_expires_at = none;
}

abbrev pub as_failed : TaskRecord → Timestamp → TaskFailureCode → TaskRecord
as_failed t at code = record t {
  status = failed;
  failure_code = some code;
  updated_at = at;
  failed_at = some at;
  claim_token = none;
  lease_expires_at = none;
  next_attempt_at = none;
}

-- `claimable`, for `claim`
abbrev pub can_claim : TaskStatus → Option Timestamp → Timestamp → Bool
can_claim queued retry_at at = true
can_claim retry_pending none at = false
can_claim retry_pending (some retry_at) at = leb retry_at at
can_claim _ _ _ = false

-- `claimable`, for `reclaim`
abbrev pub can_reclaim : TaskStatus → Option Timestamp → Timestamp → Bool
can_reclaim running none at = false
can_reclaim running (some lease) at = leb lease at
can_reclaim _ _ _ = false

-- The branch of `claim` and `reclaim`.
unfoldable pub take_lease :
    TaskRecord → Bool → Timestamp → Text → Timestamp → Result TaskError TaskRecord
take_lease t claimable at token lease = do
  guard (claimable && ltb t.attempt_count t.max_attempts) invalid_state
  guard (ltb at lease) invalid_state
  next (leased t at token lease)

-- The branches of `applyTaskTransition` behind its first two guards.
unfoldable pub dispatch : TaskRecord → TransitionEvent → Result TaskError TaskRecord
dispatch t (claim at token lease) =
    take_lease t (can_claim t.status t.next_attempt_at at) at token lease
dispatch t (reclaim at token lease) =
    take_lease t (can_reclaim t.status t.lease_expires_at at) at token lease
dispatch t (cancel at) = next (as_cancelled t at)
dispatch t (succeed at result) = do
  guard (is_running t.status) invalid_state
  guard (task_type_eq (result_type result) (request_type t.request)) invalid_state
  next (as_succeeded t at result)
dispatch t (schedule_retry at next_attempt code) = do
  guard (is_running t.status) invalid_state
  guard (ltb t.attempt_count t.max_attempts && ltb at next_attempt) invalid_state
  next (as_retry_pending t at next_attempt)
dispatch t (fail at code) = do guard (is_running t.status) invalid_state; next (as_failed t at code)

-- `applyTaskTransition`
unfoldable pub apply_task_transition : TaskRecord → TransitionEvent → Result TaskError TaskRecord
apply_task_transition raw e = do
  t ← parsed (parse_task raw)
  guard (is_event e) schema_error
  guard (leb t.updated_at (event_at e)) invalid_state
  guard (not (is_terminal t.status)) invalid_state
  dispatch t e
