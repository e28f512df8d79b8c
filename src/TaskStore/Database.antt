-- ===== src/TaskStore/Database.antt =====
-- task-postgres/src/repository.ts: rows of tasks and artifacts, and the statements on their tables.
use surfgate.Common.{
  Bool, not, ◌&&◌, ◌||◌, ◌==◌, Option, none, some, [], ◌∷◌, ◌++◌, any, if◌then◌else◌,
}
use surfgate.Common.Rows.{first_row, rewrite}
use surfgate.Contracts.Text.{Text, text_eq, codes}
use surfgate.Contracts.Tasks.{TaskFailureCode, Timestamp, request_type}
use surfgate.Task.Record.{TaskRecord, is_running, parse_task}
use surfgate.Task.Transition.{parsed, schema_error}
use surfgate.TaskStore.Artifact.{ArtifactRecord, is_artifact_record}
use surfgate.TaskStore.Transaction.{
  AuditType, about_task, AuditEvent, task_error, primary_key, one_running_per_session, foreign_key,
  Tx, answer, lift, throw_unless, check, modify, ◌>>=◌, ◌>>◌,
}

-- `where tenant_id=$1 and id=$2`
abbrev pub has_key : Text → Text → TaskRecord → Bool
has_key tenant id t = t.tenant_id == tenant && t.id == id

-- Two rows that `managed_tasks_one_running_per_session_idx` does not let stand together.
abbrev pub same_session : TaskRecord → TaskRecord → Bool
same_session t u = t.tenant_id == u.tenant_id && t.session_id == u.session_id

abbrev pub clash : TaskRecord → TaskRecord → Bool
clash t u = is_running t.status && is_running u.status && same_session t u

-- `taskFromRow`, on a row that has been read
unfoldable pub task_from_row : TaskRecord → Tx TaskRecord
task_from_row row = lift (parsed (parse_task row))

unfoldable pub task_of_row : Option TaskRecord → Tx (Option TaskRecord)
unfolding task_from_row
task_of_row none = answer none
task_of_row (some row) = do task ← task_from_row row; answer (some task)

-- `findWith`, and `findTaskForTenant`
unfoldable pub find_with : Text → Text → Tx (Option TaskRecord)
unfolding task_of_row first_row
find_with tenant id db = task_of_row (first_row (has_key tenant id) db.tasks) db

-- `update managed_tasks set … where … returning …`, of which the condition names the key of a row.
unfoldable pub write_row :
    (TaskRecord → Bool) → (TaskRecord → TaskRecord) → Option TaskRecord → Tx (Option TaskRecord)
unfolding rewrite any
write_row p f none = answer none
write_row p f (some row) = do
  check (λ db. not (any (λ u. not (p u) && clash (f row) u) db.tasks)) one_running_per_session
  modify (λ db. record db { tasks = rewrite p f db.tasks })
  answer (some (f row))

unfoldable pub update_row : (TaskRecord → Bool) → (TaskRecord → TaskRecord) → Tx (Option TaskRecord)
unfolding first_row write_row
update_row p f db = write_row p f (first_row p db.tasks) db

-- `insert`: the row has a new key and does not clash.
unfoldable pub insert_task : TaskRecord → Tx TaskRecord
unfolding task_from_row any
insert_task raw = do
  task ← lift (parsed (parse_task raw))
  check (λ db. not (any (λ u. u.id == task.id) db.tasks)) primary_key
  check (λ db. not (any (clash task) db.tasks)) one_running_per_session
  modify (λ db. record db { tasks = task ∷ db.tasks })
  task_from_row task

-- The task that an artifact refers to.
abbrev pub owns : ArtifactRecord → TaskRecord → Bool
owns a t = has_key a.tenant_id a.task_id t && t.session_id == a.session_id

unfoldable pub insert_new_artifact : ArtifactRecord → Tx (Unit {0})
unfolding any
insert_new_artifact a = do
  check
      (λ db.
        not (any (λ b. b.shown.id == a.shown.id || b.storage_key == a.storage_key) db.artifacts))
      primary_key
  check (λ db. any (owns a) db.tasks) foreign_key
  modify (λ db. record db { artifacts = a ∷ db.artifacts })

-- Two artifacts of one task.
abbrev pub same_task : ArtifactRecord → ArtifactRecord → Bool
same_task a b = b.tenant_id == a.tenant_id && b.task_id == a.task_id

-- `insert into artifacts … on conflict (tenant_id,task_id) do nothing`
unfoldable pub insert_artifact : ArtifactRecord → Tx (Unit {0})
unfolding any insert_new_artifact
insert_artifact a db =
    if any (same_task a) db.artifacts then answer tt db else insert_new_artifact a db

-- `artifactFromRow` and `findArtifactForTenant`
artifact_from_row : Option ArtifactRecord → Tx (Option ArtifactRecord)
unfolding is_artifact_record
artifact_from_row none = answer none
artifact_from_row (some a) = do
  throw_unless (is_artifact_record a) (task_error schema_error)
  answer (some a)

unfoldable pub find_artifact_for_tenant : Text → Text → Tx (Option ArtifactRecord)
unfolding first_row artifact_from_row
find_artifact_for_tenant tenant id db =
    artifact_from_row (first_row (λ a. a.tenant_id == tenant && a.shown.id == id) db.artifacts) db

abbrev pub append_audit : AuditEvent → Tx (Unit {0})
append_audit e = modify (λ db. record db { audit = db.audit ++ e ∷ [] })

-- `id.slice(4)`
abbrev behind_prefix : Text → Text
behind_prefix (a ∷ b ∷ c ∷ d ∷ rest) = rest
behind_prefix _ = []

-- `appendTaskAudit`
unfoldable pub append_task_audit :
    TaskRecord → AuditType → Timestamp → Option Text → Option TaskFailureCode → Tx (Unit {0})
append_task_audit task event_type at artifact_id error_code = append_audit (record {
  tenant_id = task.tenant_id;
  event_type = event_type;
  request_id = codes "req_" ++ behind_prefix task.id;
  session_id = task.session_id;
  task_id = some task.id;
  artifact_id = artifact_id;
  api_key_id = none;
  metadata = about_task (request_type task.request) task.attempt_count error_code;
  created_at = at;
})
