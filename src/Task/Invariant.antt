-- ===== src/Task/Invariant.antt =====
-- task-core/src/task-state.ts: the invariant of a stored task, under each kind of change.
use surfgate.Common.{◌<◌, ◌≡◌, true, false, none, some, arith, AllTrue, AllTrue-passes}
use surfgate.Contracts.Tasks.{
  TaskResult, TaskFailureCode, Timestamp, parse_request, task_type_eq, result_type, request_type,
  is_result,
}
use surfgate.Contracts.Text.{Text}
use surfgate.Task.Record.{
  TaskRecord, is_running, is_succeeded, is_terminal, parse_task, identity_checks, field_checks,
  consistency_checks, max_safe_integer, is_claim_token,
}
use surfgate.Task.Transition.{
  bump_version, leased, as_cancelled, as_succeeded, as_retry_pending, as_failed,
}

-- A task that its schema leaves as it is, with no result before it has succeeded.
pub record Inv (t : TaskRecord) : Type 0 where
  pub request_parsed : parse_request t.request ≡ some t.request
  pub identity : AllTrue (identity_checks t)
  pub fields : AllTrue (field_checks t)
  pub consistent : AllTrue (consistency_checks t)
  pub unfinished : is_succeeded t.status ≡ false → t.result ≡ none

pub parse_task-Inv : (t : TaskRecord) → Inv t → parse_task t ≡ some t
unfolding parse_task
parse_task-Inv t v = rw (
  v.request_parsed,
  parse_task,
  AllTrue-passes _ v.identity,
  AllTrue-passes _ v.fields,
  AllTrue-passes _ v.consistent,
)

module _ (t : TaskRecord) (v : Inv t) (small : t.version < max_safe_integer)
    (live : is_terminal t.status ≡ false) where
  pub leased-Inv :
      (at : Timestamp) (token : Text) (lease : Timestamp)
      → t.attempt_count < t.max_attempts
      → is_claim_token token ≡ true
      → Inv (bump_version (leased t at token lease))
  leased-Inv at token lease room valid = record {
    request_parsed = v.request_parsed;
    identity = v.identity;
    fields = ground arith;
    consistent = ground arith;
    unfinished = λ e. ground arith;
  }

  pub as_cancelled-Inv : (at : Timestamp) → Inv (bump_version (as_cancelled t at))
  as_cancelled-Inv at = record {
    request_parsed = v.request_parsed;
    identity = v.identity;
    fields = ground arith;
    consistent = ground arith;
    unfinished = λ e. ground arith;
  }

  module _ (busy : is_running t.status ≡ true) where
    pub as_succeeded-Inv :
        (at : Timestamp) (r : TaskResult)
        → is_result r ≡ true
        → task_type_eq (result_type r) (request_type t.request) ≡ true
        → Inv (bump_version (as_succeeded t at r))
    as_succeeded-Inv at r valid same = record {
      request_parsed = v.request_parsed;
      identity = v.identity;
      fields = ground arith;
      consistent = ground arith;
      unfinished = λ e. cc;
    }

    pub as_retry_pending-Inv :
        (at retry_at : Timestamp) → Inv (bump_version (as_retry_pending t at retry_at))
    as_retry_pending-Inv at retry_at = record {
      request_parsed = v.request_parsed;
      identity = v.identity;
      fields = ground arith;
      consistent = ground arith;
      unfinished = λ e. ground arith;
    }

    pub as_failed-Inv :
        (at : Timestamp) (code : TaskFailureCode) → Inv (bump_version (as_failed t at code))
    as_failed-Inv at code = record {
      request_parsed = v.request_parsed;
      identity = v.identity;
      fields = ground arith;
      consistent = ground arith;
      unfinished = λ e. ground arith;
    }
