-- ===== src/Task/Record.antt =====
-- task-core/src/task-state.ts: the record of a managed task and its schema.
use surfgate.Common.{
  ℕ, ◌-◌, ◌^◌, Bool, true, false, not, ◌&&◌, ◌||◌, Option, none, some, List, [], ◌∷◌, passes, leb,
  nat_eq, all, all_option, bool_eq, is_some, if◌then◌else◌,
}
use surfgate.Contracts.Text.{Text, codes, strip_prefix, length_within, is_hex, is_word}
use surfgate.Contracts.Ids.{is_task_id, is_tenant_id, is_session_id}
use surfgate.Contracts.Tasks.{
  Timestamp, TaskRequest, TaskResult, TaskStatus, TaskFailureCode, running, retry_pending,
  succeeded, failed, cancelled, parse_request, request_type, result_type, is_result, task_type_eq,
}

pub record TaskRecord : Type 0 where
  pub id : Text
  pub tenant_id : Text
  pub session_id : Text
  pub trace_parent : Option Text
  pub request : TaskRequest
  pub status : TaskStatus
  pub attempt_count : ℕ
  pub max_attempts : ℕ
  pub result : Option TaskResult
  pub failure_code : Option TaskFailureCode
  pub created_at : Timestamp
  pub updated_at : Timestamp
  pub started_at : Option Timestamp
  pub completed_at : Option Timestamp
  pub failed_at : Option Timestamp
  pub next_attempt_at : Option Timestamp
  pub claim_token : Option Text
  pub lease_expires_at : Option Timestamp
  pub version : ℕ

-- `Number.MAX_SAFE_INTEGER`, which `z.number().int()` does not exceed.
abbrev pub max_safe_integer : ℕ
max_safe_integer = 2 ^ 53 - 1

-- `/^claim_[A-Za-z0-9_-]{32,128}$/u`
unfoldable pub is_claim_token : Text → Bool
unfolding strip_prefix all
is_claim_token t = elim (strip_prefix (codes "claim_") t) [
  | none ↦ false
  | some rest ↦ length_within 32 128 rest && all (λ c. is_word c) rest
]

-- `n` hexadecimal digits and what stands behind them.
hex_digits : ℕ → Text → Option Text
hex_digits ℕ.zero t = some t
hex_digits (ℕ.suc n) [] = none
hex_digits (ℕ.suc n) (c ∷ t) = if is_hex c then hex_digits n t else none

abbrev after_hex : ℕ → (Text → Bool) → Option Text → Bool
unfolding hex_digits
after_hex n rest none = false
after_hex n rest (some t) = elim (hex_digits n t) [ none ↦ false | some u ↦ rest u ]

-- `0` or `1`, and nothing more.
is_trace_flag : Text → Bool
is_trace_flag (c ∷ []) = nat_eq c b'0' || nat_eq c b'1'
is_trace_flag _ = false

-- `/^00-[0-9a-f]{32}-[0-9a-f]{16}-0[01]$/u`
unfoldable pub is_trace_parent : Text → Bool
unfolding hex_digits strip_prefix is_trace_flag
is_trace_parent t =
    after_hex 32
      (λ u.
        after_hex 16
          (λ v. elim (strip_prefix (codes "-0") v) [ none ↦ false | some w ↦ is_trace_flag w ])
          (strip_prefix (codes "-") u))
      (strip_prefix (codes "00-") t)

abbrev pub is_running : TaskStatus → Bool
is_running running = true
is_running _ = false

abbrev pub is_succeeded : TaskStatus → Bool
is_succeeded succeeded = true
is_succeeded _ = false

abbrev pub is_failed : TaskStatus → Bool
is_failed failed = true
is_failed _ = false

abbrev pub is_retry_pending : TaskStatus → Bool
is_retry_pending retry_pending = true
is_retry_pending _ = false

abbrev pub is_cancelled : TaskStatus → Bool
is_cancelled cancelled = true
is_cancelled _ = false

-- `['succeeded', 'failed', 'cancelled'].includes(status)`
abbrev pub is_terminal : TaskStatus → Bool
is_terminal succeeded = true
is_terminal failed = true
is_terminal cancelled = true
is_terminal _ = false

abbrev pub result_fits : TaskRequest → Option TaskResult → Bool
result_fits q none = true
result_fits q (some r) = task_type_eq (result_type r) (request_type q)

-- The fields that no transition changes, but for the request.
abbrev pub identity_checks : TaskRecord → List Bool
identity_checks t =
    is_task_id t.id
    ∷ is_tenant_id t.tenant_id
    ∷ is_session_id t.session_id
    ∷ all_option is_trace_parent t.trace_parent
    ∷ leb 1 t.max_attempts
    ∷ leb t.max_attempts 10
    ∷ []

-- The other fields.
abbrev pub field_checks : TaskRecord → List Bool
field_checks t =
    leb t.attempt_count 100
    ∷ all_option is_result t.result
    ∷ all_option is_claim_token t.claim_token
    ∷ leb t.version max_safe_integer
    ∷ []

-- The `superRefine` of the schema.
abbrev pub consistency_checks : TaskRecord → List Bool
consistency_checks t =
    leb t.attempt_count t.max_attempts
    ∷ bool_eq (is_running t.status) (is_some t.claim_token && is_some t.lease_expires_at)
    ∷ bool_eq (is_succeeded t.status) (is_some t.result && is_some t.completed_at)
    ∷ bool_eq (is_failed t.status) (is_some t.failure_code && is_some t.failed_at)
    ∷ not (is_retry_pending t.status && not (is_some t.next_attempt_at))
    ∷ not (is_running t.status && not (is_some t.started_at))
    ∷ not (is_cancelled t.status && not (is_some t.completed_at))
    ∷ result_fits t.request t.result
    ∷ []

-- `ManagedTaskRecordSchema.safeParse`
unfoldable pub parse_task : TaskRecord → Option TaskRecord
parse_task t = elim (parse_request t.request) [
  | none ↦ none
  | some r ↦
      if passes (identity_checks t) && passes (field_checks t) && passes (consistency_checks t)
      then some (record t { request = r })
      else none
]
