-- ===== src/TaskStore/Create.antt =====
-- task-postgres/src/repository.ts: `createIdempotent` and the lookups.
use surfgate.Common.{
  ℕ, ◌+◌, Bool, true, false, not, ◌&&◌, ◌||◌, ◌==◌, Option, none, some, List, [], ◌∷◌, nat_eq, all,
  ltb, leb, length, any, ok, err, if◌then◌else◌,
}
use surfgate.Common.Rows.{first_row, select}
use surfgate.Contracts.Text.{Text, text_eq, is_alnum, is_word, is_hex}
use surfgate.Contracts.Ids.{is_task_id, is_request_id, is_api_key_id}
use surfgate.Contracts.Tasks.{Timestamp, TaskStatus, queued, running, retry_pending, request_type}
use surfgate.Task.Record.{TaskRecord, parse_task}
use surfgate.Task.Transition.{parsed, schema_error}
use surfgate.Session.Record.{Session, SessionStatus, active}
use surfgate.TaskStore.Transaction.{
  AuditType, task_create_requested, task_queued, quota_denied, about_creation, about_quota,
  Metadata, IdempotencyRow, Database, task_error, inconsistent_record, primary_key, foreign_key,
  check_violation, check, Tx, answer, lift, throw_unless, modify, ◌>>=◌, ◌>>◌,
}
use surfgate.TaskStore.Sessions.{session_row}
use surfgate.TaskStore.Database.{has_key, find_with, insert_task, append_audit}

-- The draft of the task is a record whose instants are not read.
pub record CreateInput : Type 0 where
  pub tenant_id : Text
  pub session_id : Text
  pub idempotency_key : Text
  pub request_hash : Text
  pub request_id : Text
  pub api_key_id : Text
  pub task : TaskRecord
  pub max_queued_tasks : ℕ
  pub max_tasks_per_minute : ℕ

pub data TaskCreateClaim : Type 0 where
  created existing : (task : TaskRecord) → TaskCreateClaim
  conflict quota_exceeded session_not_found session_expired session_not_active : TaskCreateClaim

-- `where tenant_id=$1 and session_id=$2 and idempotency_key=$3`
abbrev pub names : Text → Text → Text → IdempotencyRow → Bool
names tenant session key r =
    r.tenant_id == tenant && r.session_id == session && r.idempotency_key == key

unfoldable pub idempotency_row : Text → Text → Text → List IdempotencyRow → Option IdempotencyRow
unfolding first_row
idempotency_row tenant session key = first_row (names tenant session key)

-- The answer to a request whose key is known.
abbrev pub found_task : Option TaskRecord → Tx TaskCreateClaim
found_task none db = err inconsistent_record
found_task (some task) db = ok (existing task, db)

unfoldable pub claimed_before : Text → Text → IdempotencyRow → Tx TaskCreateClaim
unfolding find_with
claimed_before tenant hash row =
    if row.request_hash == hash
    then (do
      throw_unless (is_task_id row.task_id) (task_error schema_error)
      found ← find_with tenant row.task_id
      found_task found)
    else answer conflict

-- `findIdempotentTask`
abbrev lookup_answer : Text → Text → Option IdempotencyRow → Tx (Option TaskCreateClaim)
lookup_answer tenant hash none = answer none
lookup_answer tenant hash (some row) = do
  claim ← claimed_before tenant hash row
  answer (some claim)

unfoldable pub find_idempotent_task : Text → Text → Text → Text → Tx (Option TaskCreateClaim)
unfolding idempotency_row claimed_before
find_idempotent_task tenant session key hash db =
    lookup_answer tenant hash (idempotency_row tenant session key db.idempotency) db

abbrev pub is_active : SessionStatus → Bool
is_active active = true
is_active _ = false

-- `status in ('queued','running','retry_pending')`
abbrev pub is_open : TaskStatus → Bool
is_open queued = true
is_open running = true
is_open retry_pending = true
is_open _ = false

-- The two counts of a tenant's tasks: open ones, and ones created in the last minute.
unfoldable pub open_tasks : Text → List TaskRecord → ℕ
unfolding select
open_tasks tenant ts = length (select (λ t. t.tenant_id == tenant && is_open t.status) ts)

unfoldable pub recent_tasks : Text → Timestamp → List TaskRecord → ℕ
unfolding select
recent_tasks tenant now ts =
    length (select (λ t. t.tenant_id == tenant && ltb now (t.created_at + 60000)) ts)

-- `appendCreateAudit`
abbrev creation_metadata : AuditType → CreateInput → Metadata
creation_metadata quota_denied i = about_quota
creation_metadata _ i = about_creation (request_type i.task.request)

abbrev created_task : AuditType → CreateInput → Option Text
created_task quota_denied i = none
created_task _ i = some i.task.id

unfoldable pub append_create_audit : CreateInput → AuditType → Timestamp → Tx (Unit {0})
append_create_audit i event_type at = do
  throw_unless (is_request_id i.request_id) (task_error schema_error)
  throw_unless (is_api_key_id i.api_key_id) (task_error schema_error)
  append_audit (record {
    tenant_id = i.tenant_id;
    event_type = event_type;
    request_id = i.request_id;
    session_id = i.session_id;
    task_id = created_task event_type i;
    artifact_id = none;
    api_key_id = some i.api_key_id;
    metadata = creation_metadata event_type i;
    created_at = at;
  })

-- The task that a row refers to.
abbrev pub refers_to : IdempotencyRow → TaskRecord → Bool
refers_to r t = has_key r.tenant_id r.task_id t && t.session_id == r.session_id

-- `'^[A-Za-z0-9][A-Za-z0-9._:-]{0,127}$'`, of the constraint on the column
unfoldable pub is_stored_key : Text → Bool
unfolding all
is_stored_key [] = false
is_stored_key (c ∷ t) =
    is_alnum c && leb (length t) 127 && all (λ d. is_word d || nat_eq d b'.' || nat_eq d b':') t

-- `'^[0-9a-f]{64}$'`
unfoldable pub is_stored_hash : Text → Bool
unfolding all
is_stored_hash t = nat_eq (length t) 64 && all (λ c. is_hex c) t

-- `insert into task_create_idempotency`
unfoldable pub insert_idempotency : IdempotencyRow → Tx (Unit {0})
unfolding any is_stored_key is_stored_hash
insert_idempotency r = do
  throw_unless (is_stored_key r.idempotency_key && is_stored_hash r.request_hash) check_violation
  check (λ db. not (any (names r.tenant_id r.session_id r.idempotency_key) db.idempotency))
      primary_key
  check (λ db. any (refers_to r) db.tasks) foreign_key
  modify (λ db. record db { idempotency = r ∷ db.idempotency })

-- The part behind the quota.
unfoldable pub create_task : CreateInput → Timestamp → Tx TaskCreateClaim
unfolding insert_task insert_idempotency append_create_audit
create_task i now = do
  draft ← lift (parsed (parse_task (record i.task { created_at = now; updated_at = now })))
  task ← insert_task draft
  insert_idempotency (record {
    tenant_id = i.tenant_id;
    session_id = i.session_id;
    idempotency_key = i.idempotency_key;
    request_hash = i.request_hash;
    task_id = task.id;
    created_at = task.created_at;
  })
  append_create_audit i task_create_requested now
  append_create_audit i task_queued now
  answer (created task)

unfoldable pub quota_full : CreateInput → Timestamp → Database → Bool
unfolding open_tasks recent_tasks
quota_full i now db =
    leb i.max_queued_tasks (open_tasks i.tenant_id db.tasks)
    || leb i.max_tasks_per_minute (recent_tasks i.tenant_id now db.tasks)

unfoldable pub deny : CreateInput → Timestamp → Tx TaskCreateClaim
unfolding append_create_audit
deny i now = do append_create_audit i quota_denied now; answer quota_exceeded

unfoldable pub within_quota : CreateInput → Timestamp → Tx TaskCreateClaim
unfolding quota_full deny create_task
within_quota i now db = if quota_full i now db then deny i now db else create_task i now db

-- `expiresAt === null || expiresAt <= now`
abbrev pub has_expired : Option Timestamp → Timestamp → Bool
has_expired none now = true
has_expired (some expiry) now = leb expiry now

unfoldable pub before_expiry : CreateInput → Timestamp → Session → Tx TaskCreateClaim
unfolding within_quota
before_expiry i now s =
    if has_expired s.expires_at now then answer session_expired else within_quota i now

unfoldable pub in_session : CreateInput → Timestamp → Option Session → Tx TaskCreateClaim
unfolding before_expiry
in_session i now none = answer session_not_found
in_session i now (some s) =
    if is_active s.status then before_expiry i now s else answer session_not_active

abbrev pub created_or_existing :
    CreateInput → Timestamp → Option IdempotencyRow → Tx TaskCreateClaim
created_or_existing i now (some row) db = claimed_before i.tenant_id i.request_hash row db
created_or_existing i now none db =
    in_session i now (session_row i.tenant_id i.session_id db.sessions) db

-- `createIdempotent`; `now` is the database's clock.
unfoldable pub create_idempotent : CreateInput → Timestamp → Tx TaskCreateClaim
unfolding idempotency_row in_session session_row claimed_before
create_idempotent i now db =
    created_or_existing i now
      (idempotency_row i.tenant_id i.session_id i.idempotency_key db.idempotency) db
