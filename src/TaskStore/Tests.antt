-- ===== src/TaskStore/Tests.antt =====
-- A task that is created, claimed and finished, and the theorems at it.
use surfgate.Common.{
  ◌≡◌, ◌≢◌, ◌≤◌, refl, false, none, some, List, [], ◌∷◌, ok, ℕ_discrete, passes, any,
}
use surfgate.Contracts.Text.{text_eq, codes, Text-discrete, trim, trim_start}
use surfgate.Contracts.Tasks.{
  task_execution_failed, Timestamp, extract, extract_result, parse_request, is_result,
}
use surfgate.Session.Tests.{in_use}
use surfgate.Task.Record.{TaskRecord, parse_task, is_trace_parent, is_claim_token}
use surfgate.Task.Transition.{
  bump_version, leased, as_succeeded, take_lease, next, apply_task_transition, is_event, dispatch,
}
use surfgate.Task.Tests.{fresh, token}
use surfgate.TaskStore.Transaction.{
  Database, Ensures, AuditType, AuditEvent, about_creation, about_task, task_create_requested,
  task_queued, task_started, task_succeeded, task_failed, ◌>>=◌, lift, check, modify, answer,
  throw_unless,
}
use surfgate.TaskStore.Create.{open_tasks, recent_tasks, CreateInput, created, create_idempotent}
use surfgate.TaskStore.Change.{TransitionInput, to_succeed, write_transition, persisted_event}
use surfgate.TaskStore.Claim.{
  give_up, fail_exhausted, claim_order, ClaimInput, claim_of_tenant, claimable_rows, is_occupied,
  lease_task, pick, running_count,
}
use surfgate.TaskStore.Idempotent.{row_of, Outcome, create_idempotent-Outcome}
use surfgate.TaskStore.Sound.{Sound}
use surfgate.TaskStore.Sound.Calls.{
  Call, fails, creates, claims, changes, run_calls, run_calls-Sound,
}
use surfgate.Contracts.Ids.{is_task_id, is_tenant_id, is_session_id, is_request_id, is_api_key_id}
use surfgate.Common.Rows.{Forall, first_row, rewrite, select}
use surfgate.Common.Sorting.{sort_by}
use surfgate.TaskStore.Database.{append_task_audit, task_from_row, update_row, write_row}
use Prim.Native.Nat.{Ordering}
use surfgate.TaskStore.Sound.Create.{create_idempotent-Sound}
use surfgate.TaskStore.Sound.Claim.{claim_of_tenant-Sound}
use surfgate.TaskStore.Changed.{Changed, write_transition-Changed}
use surfgate.TaskStore.Exhausted.{Cleaned, fail_exhausted-Cleaned}
use surfgate.TaskStore.Exclusive.{write_transition_exclusive}
use surfgate.TaskStore.Limit.{Free, Granted, claim_limit, claim_pick}
use surfgate.TaskStore.Retry.{repeated, create_idempotent_again}
use surfgate.TaskStore.Quota.{create_idempotent_quota}

abbrev store : Database
store = record { tasks = []; sessions = in_use ∷ []; idempotency = []; artifacts = []; audit = [] }

store-Sound : Sound store
store-Sound = record {
  stored = tt;
  apart = tt;
  named = tt;
  referenced = tt;
  one_artifact = tt;
  owned = tt;
}

abbrev request : CreateInput
request = record {
  tenant_id = fresh.tenant_id;
  session_id = fresh.session_id;
  idempotency_key = codes "key-1";
  request_hash = codes "5f0a5f0a5f0a5f0a5f0a5f0a5f0a5f0a5f0a5f0a5f0a5f0a5f0a5f0a5f0a5f0a";
  request_id = codes "req_01ARZ3NDEKTSV4RRFFQ69G5FAV";
  api_key_id = codes "key_01ARZ3NDEKTSV4RRFFQ69G5FAV";
  task = fresh;
  max_queued_tasks = 2;
  max_tasks_per_minute = 5;
}

abbrev waiting : TaskRecord
waiting = record fresh { created_at = 120; updated_at = 120 }

abbrev creation_event : AuditType → AuditEvent
creation_event k = record {
  tenant_id = request.tenant_id;
  event_type = k;
  request_id = request.request_id;
  session_id = request.session_id;
  task_id = some fresh.id;
  artifact_id = none;
  api_key_id = some request.api_key_id;
  metadata = about_creation extract;
  created_at = 120;
}

abbrev stored : Database
stored = record store {
  tasks = waiting ∷ [];
  idempotency = row_of request waiting ∷ [];
  audit = creation_event task_create_requested ∷ creation_event task_queued ∷ [];
}

creation : create_idempotent request 120 store ≡ ok (created waiting, stored)
unfolding create_idempotent Text-discrete ℕ_discrete ◌>>=◌ lift parse_task parse_request trim passes
    is_task_id is_tenant_id is_session_id is_trace_parent check modify answer any first_row
    trim_start is_claim_token throw_unless is_result is_request_id is_api_key_id
creation = refl

abbrev worker : ClaimInput
worker = record { claim_token = token; lease_ttl_ms = 5000; max_running_per_tenant = 1 }

abbrev busy : TaskRecord
busy = bump_version (leased waiting 150 token 5150)

abbrev task_event : AuditType → Timestamp → AuditEvent
task_event k at = record {
  tenant_id = request.tenant_id;
  event_type = k;
  request_id = request.request_id;
  session_id = request.session_id;
  task_id = some fresh.id;
  artifact_id = none;
  api_key_id = none;
  metadata = about_task extract 1 none;
  created_at = at;
}

abbrev claimed : Database
claimed = record stored {
  tasks = busy ∷ [];
  audit =
      creation_event task_create_requested
      ∷ creation_event task_queued
      ∷ task_event task_started 150
      ∷ [];
}

claiming :
    claim_of_tenant worker 150 (λ id. false) request.tenant_id stored ≡ ok (some busy, claimed)
unfolding claim_of_tenant Text-discrete ℕ_discrete ◌>>=◌ lift parse_task parse_request trim passes
    is_task_id is_tenant_id is_session_id is_trace_parent check modify answer any first_row
    trim_start is_claim_token throw_unless is_result take_lease rewrite select sort_by next
    claimable_rows is_occupied lease_task pick running_count append_task_audit task_from_row
    update_row write_row apply_task_transition is_event dispatch
claiming = refl

abbrev completion : TransitionInput
completion = record {
  tenant_id = request.tenant_id;
  task_id = fresh.id;
  expected_version = 1;
  expected_claim_token = some token;
  event = to_succeed (extract_result (codes "Title") (codes "text"));
}

abbrev finished : TaskRecord
finished = bump_version (as_succeeded busy 170 (extract_result (codes "Title") (codes "text")))

abbrev done : Database
done = record claimed {
  tasks = finished ∷ [];
  audit =
      creation_event task_create_requested
      ∷ creation_event task_queued
      ∷ task_event task_started 150
      ∷ task_event task_succeeded 170
      ∷ [];
}

completing : write_transition completion busy 170 claimed ≡ ok (finished, done)
unfolding write_transition Text-discrete ℕ_discrete ◌>>=◌ lift parse_task parse_request trim passes
    is_task_id is_tenant_id is_session_id is_trace_parent check modify answer any first_row
    trim_start is_claim_token throw_unless is_result rewrite dispatch next take_lease
    persisted_event append_task_audit update_row write_row apply_task_transition is_event
completing = refl

stored-Sound : Sound stored
stored-Sound = (create_idempotent-Sound request 120 store store-Sound).at _ _ creation

claimed-Sound : Sound claimed
claimed-Sound =
    (claim_of_tenant-Sound worker 150 (λ id. false) request.tenant_id stored stored-Sound).at _ _
      claiming

abbrev calls : List Call
calls =
    creates request 120 ∷ claims worker 150 (λ id. false) ∷ changes completion 170 ∷ fails 9000 ∷ []

run_calls-Sound_example : Sound (run_calls calls store)
run_calls-Sound_example = run_calls-Sound calls store store-Sound

write_transition-Changed_example : Changed completion busy 170 claimed finished done
write_transition-Changed_example =
    write_transition-Changed completion busy 170 claimed done finished claimed-Sound completing

write_transition_exclusive_example :
    ¬ (write_transition completion busy 180 done ≡ ok (finished, done))
write_transition_exclusive_example =
    write_transition_exclusive completion completion busy busy 170 180 claimed done done finished
      finished claimed-Sound refl refl completing

claim_limit_example : running_count request.tenant_id 150 claimed.tasks ≤ 1
claim_limit_example =
    claim_limit worker 150 (λ id. false) request.tenant_id stored claimed busy stored-Sound claiming

claim_pick_example :
    (t : TaskRecord) × Free request.tenant_id (λ id. false) 150 stored.tasks t
    × Forall
        (λ r. claim_order t r ≢ Ordering.gt)
        (claimable_rows request.tenant_id (λ id. false) 150 stored.tasks)
    × Granted worker 150 t busy
claim_pick_example =
    claim_pick worker 150 (λ id. false) request.tenant_id stored claimed busy claiming

create_idempotent-Outcome_example :
    Ensures (Outcome request 120 store) (create_idempotent request 120) store
create_idempotent-Outcome_example = create_idempotent-Outcome request 120 store

create_idempotent_again_example :
    create_idempotent request 500 stored ≡ ok (repeated request request waiting, stored)
create_idempotent_again_example =
    create_idempotent_again request request 120 500 store stored waiting refl refl refl creation

create_idempotent_quota_example :
    (open_tasks request.tenant_id stored.tasks ≤ 2)
    × (recent_tasks request.tenant_id 120 stored.tasks ≤ 5)
create_idempotent_quota_example = create_idempotent_quota request 120 store stored waiting creation

abbrev worn_out : Database
worn_out = record claimed { tasks = record busy { attempt_count = 3 } ∷ [] }

abbrev failed_task : TaskRecord
failed_task = give_up 6000 (record busy { attempt_count = 3 })

abbrev cleaned : Database
cleaned = record worn_out {
  tasks = failed_task ∷ [];
  audit =
      creation_event task_create_requested
      ∷ creation_event task_queued
      ∷ task_event task_started 150
      ∷ record (task_event task_failed 6000) {
        metadata = about_task extract 3 (some task_execution_failed);
      }
      ∷ [];
}

cleaning : fail_exhausted 6000 worn_out ≡ ok (tt, cleaned)
unfolding fail_exhausted Text-discrete ℕ_discrete ◌>>=◌ lift parse_task parse_request trim passes
    is_task_id is_tenant_id is_session_id is_trace_parent check modify answer any first_row
    trim_start is_claim_token throw_unless is_result rewrite select append_task_audit
cleaning = refl

fail_exhausted-Cleaned_example :
    Cleaned 6000 worn_out.tasks cleaned.tasks
    × (cleaned.sessions ≡ worn_out.sessions)
    × (cleaned.idempotency ≡ worn_out.idempotency)
    × (cleaned.artifacts ≡ worn_out.artifacts)
fail_exhausted-Cleaned_example = fail_exhausted-Cleaned 6000 worn_out cleaned cleaning
