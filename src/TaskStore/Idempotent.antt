-- ===== src/TaskStore/Idempotent.antt =====
-- task-postgres/src/repository.ts: the answers of `createIdempotent`, and what they leave.
use surfgate.Common.{
  ◌≡◌, refl, subst, ◌∙◌, ap, true, false, ◌==◌, Option, none, some, ◌∷◌, any, ok, not-true,
}
use surfgate.Common.Rows.{first_row}
use surfgate.Contracts.Text.{Text, text_eq}
use surfgate.Contracts.Tasks.{Timestamp}
use surfgate.Session.Record.{Session}
use surfgate.Task.Record.{TaskRecord, parse_task}
use surfgate.Task.Transition.{parsed}
use surfgate.TaskStore.Transaction.{
  Database, AuditType, quota_denied, task_create_requested, task_queued, IdempotencyRow, Ensures,
  Ensures-answer, Ensures-bind, Ensures-lift, Ensures-throw_unless, Ensures-check, Ensures-modify,
  Ensures-if, Ensures-either, Ensures-written, Ensures-read, committed, answer,
}
use surfgate.TaskStore.Database.{has_key, find_with, task_of_row, task_from_row, insert_task}
use surfgate.TaskStore.Sessions.{session_row}
use surfgate.TaskStore.Create.{
  CreateInput, TaskCreateClaim, created, existing, conflict, quota_exceeded, session_not_found,
  session_expired, session_not_active, refers_to, idempotency_row, found_task, claimed_before,
  insert_idempotency, append_create_audit, quota_full, deny, create_task, within_quota, has_expired,
  is_active, before_expiry, in_session, created_or_existing, create_idempotent,
}

-- The tables but for the audit.
abbrev pub SameTables : Database → Database → Type 0
SameTables db d =
    (d.tasks ≡ db.tasks)
    × (d.sessions ≡ db.sessions)
    × (d.idempotency ≡ db.idempotency)
    × (d.artifacts ≡ db.artifacts)

abbrev pub row_of : CreateInput → TaskRecord → IdempotencyRow
row_of i t = record {
  tenant_id = i.tenant_id;
  session_id = i.session_id;
  idempotency_key = i.idempotency_key;
  request_hash = i.request_hash;
  task_id = t.id;
  created_at = t.created_at;
}

-- What a creation leaves: one new task and its idempotency key.
pub record Created (i : CreateInput) (db : Database) (t : TaskRecord) (d : Database) : Type 0 where
  pub row : TaskRecord
  pub tasks : d.tasks ≡ row ∷ db.tasks
  pub reads : parsed (parse_task row) ≡ ok t
  pub new : any (λ u. u.id == row.id) db.tasks ≡ false
  pub keyed : d.idempotency ≡ row_of i t ∷ db.idempotency
  pub known : any (refers_to (row_of i t)) (row ∷ db.tasks) ≡ true

abbrev pub Outcome : CreateInput → Timestamp → Database → TaskCreateClaim → Database → Type 0
Outcome i now db (created t) d = (quota_full i now db ≡ false) × Created i db t d
Outcome i now db quota_exceeded d = (quota_full i now db ≡ true) × SameTables db d
Outcome i now db _ d = d ≡ db

append_create_audit_same :
    (i : CreateInput) (k : AuditType) (at : Timestamp) (db : Database)
    → Ensures (λ u d. SameTables db d) (append_create_audit i k at) db
unfolding append_create_audit
append_create_audit_same i k at db =
    Ensures-throw_unless _ db _ _ _
      λ e1. Ensures-throw_unless _ db _ _ _ λ e2. Ensures-written _ _ db (refl, refl, refl, refl)

-- What the two inserts leave.
record Put (db : Database) (t : TaskRecord) (d : Database) : Type 0 where
  row : TaskRecord
  tables : d ≡ record db { tasks = row ∷ db.tasks }
  reads : parsed (parse_task row) ≡ ok t
  new : any (λ u. u.id == row.id) db.tasks ≡ false

insert_task-Put : (raw : TaskRecord) (db : Database) → Ensures (Put db) (insert_task raw) db
unfolding insert_task task_from_row
insert_task-Put raw db = Ensures-lift _ _ _ db λ t e1. Ensures-check _ db _ _ _ λ new.
    Ensures-check _ db _ _ _ λ free. Ensures-modify _ db _ _ (
      Ensures-read _ _ _
        λ u e2. record { row = t; tables = refl; reads = e2; new = not-true _ new })

insert_idempotency_put :
    (r : IdempotencyRow) (db : Database)
    → Ensures
        (λ u d.
          (any (refers_to r) db.tasks ≡ true)
          × (d.tasks ≡ db.tasks)
          × (d.idempotency ≡ r ∷ db.idempotency))
        (insert_idempotency r)
        db
unfolding insert_idempotency
insert_idempotency_put r db = Ensures-throw_unless _ db _ _ _ λ valid.
    Ensures-check _ db _ _ _
      λ new. Ensures-check _ db _ _ _ λ known. Ensures-written _ _ db (known, refl, refl)

create_task-Created :
    (i : CreateInput) (now : Timestamp) (db : Database)
    → quota_full i now db ≡ false
    → Ensures (Outcome i now db) (create_task i now) db
unfolding create_task
create_task-Created i now db room = Ensures-lift _ _ _ db λ draft e.
    Ensures-bind _ (Put db) (insert_task draft) _ db (insert_task-Put draft db) λ t d1 p.
      Ensures-bind _ _ (insert_idempotency (row_of i t)) _ d1
        (insert_idempotency_put (row_of i t) d1)
        λ u d2 k.
          Ensures-bind _ _ (append_create_audit i task_create_requested now) _ d2
            (append_create_audit_same i task_create_requested now d2)
            λ u d3 a.
              Ensures-bind _ _ (append_create_audit i task_queued now) _ d3
                (append_create_audit_same i task_queued now d3)
                λ u d4 b. Ensures-answer _ (created t) d4 (
                  room,
                  record {
                    row = p.row;
                    tasks = b.0 ∙ a.0 ∙ k.1 ∙ ap (λ x. x.tasks) p.tables;
                    reads = p.reads;
                    new = p.new;
                    keyed = b.2 ∙ a.2 ∙ k.2 ∙ ap (λ x. row_of i t ∷ x.idempotency) p.tables;
                    known =
                        subst (λ x. any (refers_to (row_of i t)) x ≡ true)
                          (ap (λ x. x.tasks) p.tables) k.0;
                  },
                )

within_quota-Outcome :
    (i : CreateInput) (now : Timestamp) (db : Database)
    → Ensures (Outcome i now db) (within_quota i now) db
unfolding within_quota deny
within_quota-Outcome i now db = record {
  at =
      (Ensures-if (Outcome i now db) db (deny i now) (quota_full i now) (create_task i now)
        (λ full.
          Ensures-bind _ _ (append_create_audit i quota_denied now) _ db
            (append_create_audit_same i quota_denied now db)
            (λ u d k. Ensures-answer _ quota_exceeded d (full, k)))
        (λ room. create_task-Created i now db room)).at;
}

in_session-Outcome :
    (i : CreateInput) (now : Timestamp) (session : Option Session) (db : Database)
    → Ensures (Outcome i now db) (in_session i now session) db
unfolding in_session before_expiry
in_session-Outcome i now none db = Ensures-answer _ session_not_found db refl
in_session-Outcome i now (some session) db =
    Ensures-either (Outcome i now db) db _ (is_active session.status) (answer session_not_active)
      (λ e.
        Ensures-either (Outcome i now db) db _ (has_expired session.expires_at now)
          (within_quota i now) (λ f. Ensures-answer _ session_expired db refl)
          (λ f. within_quota-Outcome i now db))
      (λ e. Ensures-answer _ session_not_active db refl)

find_with_same :
    (tenant id : Text) (db : Database) → Ensures (λ o d. d ≡ db) (find_with tenant id) db
unfolding find_with task_of_row task_from_row
find_with_same tenant id db = record { at = (read (first_row (has_key tenant id) db.tasks)).at }
  where
    read : (o : Option TaskRecord) → Ensures (λ o d. d ≡ db) (task_of_row o) db
    read none = Ensures-answer _ none db refl
    read (some row) =
        Ensures-lift _ (parsed (parse_task row)) _ db λ t e. Ensures-answer _ (some t) db refl

claimed_before-Outcome :
    (i : CreateInput) (now : Timestamp) (row : IdempotencyRow) (db : Database)
    → Ensures (Outcome i now db) (claimed_before i.tenant_id i.request_hash row) db
unfolding claimed_before
claimed_before-Outcome i now row db =
    Ensures-either (Outcome i now db) db _ (row.request_hash == i.request_hash) (answer conflict)
      (λ e. Ensures-throw_unless _ db _ _ _ λ known.
        Ensures-bind _ (λ o d. d ≡ db) (find_with i.tenant_id row.task_id) _ db
          (find_with_same i.tenant_id row.task_id db) (λ found d k. answered found d k))
      (λ e. Ensures-answer _ conflict db refl)
  where
    answered :
        (o : Option TaskRecord) (d : Database)
        → d ≡ db
        → Ensures (Outcome i now db) (found_task o) d
    answered none d k = record { at = λ a c h. cc }
    answered (some t) d k = record {
      at = λ a c h. committed (Outcome i now db) (existing t) d a c k h;
    }

-- What each answer of a creation leaves: a new task with its key within the quota; at the quota
-- the same tables, but for the audit; and with any other answer the same tables.
pub create_idempotent-Outcome :
    (i : CreateInput) (now : Timestamp) (db : Database)
    → Ensures (Outcome i now db) (create_idempotent i now) db
unfolding create_idempotent
create_idempotent-Outcome i now db = record {
  at = (choose (idempotency_row i.tenant_id i.session_id i.idempotency_key db.idempotency)).at;
}
  where
    choose :
        (o : Option IdempotencyRow) → Ensures (Outcome i now db) (created_or_existing i now o) db
    choose none = record {
      at = (in_session-Outcome i now (session_row i.tenant_id i.session_id db.sessions) db).at;
    }
    choose (some row) = record { at = (claimed_before-Outcome i now row db).at }
