-- ===== src/Task/Tests.antt =====
-- One task from creation to its result, and the theorems at it.
use surfgate.Common.{
  ℕ, ◌≡◌, refl, ◌↔◌, true, none, some, List, [], ◌∷◌, arith, ok, err, passes, ◌≤◌,
}
use surfgate.Contracts.Tasks.{
  parse_request, extract_request, queued, is_result, task_execution_failed,
}
use surfgate.Contracts.Text.{codes, trim, trim_start}
use surfgate.Contracts.Ids.{is_task_id, is_tenant_id, is_session_id}
use surfgate.Task.Record.{TaskRecord, is_claim_token, is_trace_parent, parse_task}
use surfgate.Task.Transition.{
  as_cancelled, cancel, claim, reclaim, fail, is_event, bump_version, leased, next, take_lease,
  dispatch, apply_task_transition, invalid_state,
}
use surfgate.Task.Invariant.{Inv}
use surfgate.Task.Step.{Step}
use surfgate.Task.Steps.{apply_task_transition-Step, task_refusal}
use surfgate.Task.Lifetime.{here, accepted, Accounts, task-Accounts, lease_exclusive}

abbrev pub fresh : TaskRecord
fresh = record {
  id = codes "tsk_01ARZ3NDEKTSV4RRFFQ69G5FAV";
  tenant_id = codes "ten_01ARZ3NDEKTSV4RRFFQ69G5FAV";
  session_id = codes "ses_01ARZ3NDEKTSV4RRFFQ69G5FAV";
  trace_parent = some (codes "00-0123456789abcdef0123456789abcdef-0123456789abcdef-01");
  request = extract_request (some (codes "main")) none;
  status = queued;
  attempt_count = 0;
  max_attempts = 3;
  result = none;
  failure_code = none;
  created_at = 100;
  updated_at = 100;
  started_at = none;
  completed_at = none;
  failed_at = none;
  next_attempt_at = none;
  claim_token = none;
  lease_expires_at = none;
  version = 0;
}

abbrev pub token : List ℕ
token = codes "claim_0123456789abcdef0123456789abcdef"

pub fresh-Inv : Inv fresh
unfolding parse_request trim trim_start is_task_id is_tenant_id is_session_id is_trace_parent
    is_result is_claim_token
fresh-Inv = record {
  request_parsed = refl;
  identity = (refl, (refl, (refl, (refl, (refl, (refl, tt))))));
  fields = (refl, (refl, (refl, (refl, tt))));
  consistent = (refl, (refl, (refl, (refl, (refl, (refl, (refl, (refl, tt))))))));
  unfinished = λ e. refl;
}

abbrev at_work : TaskRecord
at_work = bump_version (leased fresh 150 token 200)

fresh_claimed : apply_task_transition fresh (claim 150 token 200) ≡ ok at_work
unfolding apply_task_transition dispatch take_lease next parse_task passes is_event parse_request
    trim trim_start is_task_id is_tenant_id is_session_id is_trace_parent is_result is_claim_token
fresh_claimed = refl

at_work-Inv : Inv at_work
at_work-Inv =
    (task-Accounts fresh at_work _ fresh-Inv
      (accepted (claim 150 token 200) here fresh_claimed)).stored

token_valid : is_claim_token token ≡ true
unfolding is_claim_token
token_valid = refl

apply_task_transition-Step_example :
    (apply_task_transition fresh (claim 150 token 200) ≡ ok at_work)
    ↔ (Step fresh (claim 150 token 200) at_work × (100 ≤ 150))
apply_task_transition-Step_example =
    apply_task_transition-Step fresh fresh-Inv (omega arith) (claim 150 token 200) at_work
      (unfold is_event in token_valid)

early_result : apply_task_transition fresh (fail 150 task_execution_failed) ≡ err invalid_state
unfolding apply_task_transition dispatch take_lease next parse_task passes is_event parse_request
    trim trim_start is_task_id is_tenant_id is_session_id is_trace_parent is_result is_claim_token
early_result = refl

task_refusal_example : invalid_state ≡ invalid_state
task_refusal_example =
    task_refusal fresh fresh-Inv (omega arith) (fail 150 task_execution_failed) invalid_state
      (unfold is_event in refl) early_result

task-Accounts_example : Accounts fresh at_work (claim 150 token 200 ∷ [])
task-Accounts_example =
    task-Accounts fresh at_work (claim 150 token 200 ∷ []) fresh-Inv
      (accepted (claim 150 token 200) here fresh_claimed)

lease_exclusive_example :
    (apply_task_transition at_work (claim 160 token 300) ≡ err invalid_state)
    × (apply_task_transition at_work (reclaim 160 token 300) ≡ err invalid_state)
lease_exclusive_example =
    lease_exclusive at_work 200 160 token 300 at_work-Inv refl refl (omega arith) token_valid

abbrev stopped : TaskRecord
stopped = bump_version (as_cancelled fresh 150)

cancelling : apply_task_transition fresh (cancel 150) ≡ ok stopped
unfolding apply_task_transition dispatch take_lease next parse_task passes is_event parse_request
    trim trim_start is_task_id is_tenant_id is_session_id is_trace_parent is_result is_claim_token
cancelling = refl

stopped-Inv : Inv stopped
stopped-Inv =
    (task-Accounts fresh stopped _ fresh-Inv (accepted (cancel 150) here cancelling)).stored
