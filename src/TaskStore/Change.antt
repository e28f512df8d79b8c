-- ===== src/TaskStore/Change.antt =====
-- task-postgres/src/repository.ts: `transition` and `insertArtifactAndComplete`.
use surfgate.Common.{
  ℕ, ◌+◌, ◌*◌, Bool, true, false, ◌&&◌, ◌==◌, Option, none, some, leb, nat_eq, Result, ok, err,
  if◌then◌else◌,
}
use surfgate.Contracts.Text.{Text, text_eq}
use surfgate.Contracts.Tasks.{
  Timestamp, TaskRequest, TaskResult, TaskFailureCode, extract_request, screenshot_request,
  pdf_request, screenshot_result, pdf_result, PublicArtifact, is_result,
}
use surfgate.Task.Record.{TaskRecord, max_safe_integer, parse_task}
use surfgate.Task.Transition.{
  TransitionEvent, succeed, schedule_retry, fail, cancel, TaskError, invalid_state, schema_error,
  parsed, apply_task_transition,
}
use surfgate.TaskStore.Artifact.{ArtifactRecord, is_artifact_record}
use surfgate.TaskStore.Transaction.{
  AuditType, task_succeeded, task_failed, task_cancelled, task_retry_scheduled, artifact_created,
  task_error, invalid_retention, Tx, answer, lift, throw_unless, ◌>>=◌, ◌>>◌,
}
use surfgate.TaskStore.Database.{
  has_key, find_with, update_row, task_of_row, insert_artifact, append_task_audit,
}

-- `TaskTransitionCommand`
pub data Command : Type 0 where
  to_succeed : (result : TaskResult) → Command
  to_retry : (retry_delay_ms : ℕ) (failure_code : TaskFailureCode) → Command
  to_fail : (failure_code : TaskFailureCode) → Command
  to_cancel : Command

-- `persistedTransitionEvent`
unfoldable pub persisted_event : Command → Timestamp → Result TaskError TransitionEvent
persisted_event (to_retry delay code) at =
    if leb 1 delay && leb delay 30000
    then ok (schedule_retry at (at + delay) code)
    else err invalid_state
persisted_event (to_succeed r) at = ok (succeed at r)
persisted_event (to_fail code) at = ok (fail at code)
persisted_event to_cancel at = ok (cancel at)

pub record TransitionInput : Type 0 where
  pub tenant_id : Text
  pub task_id : Text
  pub expected_version : ℕ
  pub expected_claim_token : Option Text
  pub event : Command

-- The claim token that a caller expects, if it expects one.
abbrev pub holds_token : Option Text → Option Text → Bool
holds_token none held = true
holds_token (some expected) none = false
holds_token (some expected) (some held) = held == expected

-- The columns that the statement of `transition` sets.
abbrev pub set_columns : TaskRecord → TaskRecord → TaskRecord
set_columns next row = record row {
  status = next.status;
  attempt_count = next.attempt_count;
  result = next.result;
  failure_code = next.failure_code;
  updated_at = next.updated_at;
  started_at = next.started_at;
  completed_at = next.completed_at;
  failed_at = next.failed_at;
  next_attempt_at = next.next_attempt_at;
  claim_token = next.claim_token;
  lease_expires_at = next.lease_expires_at;
  version = next.version;
}

-- `where tenant_id=$1 and id=$2 and version=$3 and ($4::text is null or claim_token=$4)`
abbrev pub unchanged : Text → Text → ℕ → Option Text → TaskRecord → Bool
unchanged tenant id version token t =
    has_key tenant id t && nat_eq t.version version && holds_token token t.claim_token

abbrev audit_type : TransitionEvent → AuditType
audit_type (succeed at r) = task_succeeded
audit_type (schedule_retry at next code) = task_retry_scheduled
audit_type (cancel at) = task_cancelled
audit_type _ = task_failed

abbrev error_code : TransitionEvent → Option TaskFailureCode
error_code (schedule_retry at next code) = some code
error_code (fail at code) = some code
error_code _ = none

-- `if (rows[0] === undefined) throw new TaskTransitionError()`
abbrev pub required : Option TaskRecord → Result TaskError TaskRecord
required none = err invalid_state
required (some t) = ok t

-- The part behind the read of the task. Other transactions may have committed since, so the
-- tables here need not be those that `current` was read from.
unfoldable pub write_transition : TransitionInput → TaskRecord → Timestamp → Tx TaskRecord
unfolding persisted_event update_row task_of_row append_task_audit
write_transition i current at = do
  throw_unless
      (nat_eq current.version i.expected_version
        && holds_token i.expected_claim_token current.claim_token)
      (task_error invalid_state)
  event ← lift (persisted_event i.event at)
  next ← lift (apply_task_transition current event)
  rows ←
      update_row (unchanged i.tenant_id i.task_id current.version i.expected_claim_token)
        (set_columns next)
  row ← lift (required rows)
  persisted ← lift (parsed (parse_task row))
  append_task_audit persisted (audit_type event) at none (error_code event)
  answer persisted

-- `transition`; `at` is the database's clock.
unfoldable pub transition : TransitionInput → Timestamp → Tx TaskRecord
unfolding find_with write_transition
transition i at = do
  found ← find_with i.tenant_id i.task_id
  current ← lift (required found)
  write_transition i current at

pub record CompleteInput : Type 0 where
  pub task : TaskRecord
  pub claim_token : Text
  pub artifact : ArtifactRecord
  pub artifact_retention_seconds : ℕ

-- The instants of the artifact that the caller gives are not read.
abbrev pub dated : ArtifactRecord → Timestamp → ℕ → ArtifactRecord
dated a at seconds = record a {
  shown = record a.shown { created_at = at; expires_at = at + seconds * 1000 };
}

-- The result of a task that has an artifact; an extraction has none.
abbrev artifact_result : TaskRequest → PublicArtifact → Result TaskError TaskResult
artifact_result (extract_request s a) shown = err invalid_state
artifact_result (screenshot_request f p q a) shown = ok (screenshot_result shown)
artifact_result (pdf_request l p w h a) shown = ok (pdf_result shown)

-- The columns that the statement sets.
abbrev pub set_completed : TaskRecord → TaskRecord → TaskRecord
set_completed next row = record row {
  status = next.status;
  result = next.result;
  updated_at = next.updated_at;
  completed_at = next.completed_at;
  claim_token = none;
  lease_expires_at = none;
  version = next.version;
}

abbrev valid_result : TaskResult → Result TaskError TaskResult
valid_result r = if is_result r then ok r else err schema_error

-- `insertArtifactAndComplete`
unfoldable pub insert_artifact_and_complete : CompleteInput → Timestamp → Tx TaskRecord
unfolding is_artifact_record insert_artifact update_row append_task_audit
insert_artifact_and_complete i at = do
  throw_unless
      (leb 60 i.artifact_retention_seconds && leb i.artifact_retention_seconds max_safe_integer)
      invalid_retention
  throw_unless (is_artifact_record (dated i.artifact at i.artifact_retention_seconds))
      (task_error schema_error)
  result ←
      lift (artifact_result i.task.request (dated i.artifact at i.artifact_retention_seconds).shown)
  result ← lift (valid_result result)
  insert_artifact (dated i.artifact at i.artifact_retention_seconds)
  next ← lift (apply_task_transition i.task (succeed at result))
  rows ←
      update_row (unchanged i.task.tenant_id i.task.id i.task.version (some i.claim_token))
        (set_completed next)
  row ← lift (required rows)
  persisted ← lift (parsed (parse_task row))
  append_task_audit persisted task_succeeded at none none
  append_task_audit persisted artifact_created at (some i.artifact.shown.id) none
  answer persisted
