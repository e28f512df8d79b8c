-- ===== src/TaskStore/Sound/Create.antt =====
-- task-postgres/src/repository.ts: the invariant under `createIdempotent`.
use surfgate.Common.{
  ◌≡◌, refl, ◌∙◌, Bool, true, false, ◌||◌, ◌==◌, ==-comm, Option, none, some, ◌∷◌, any, ok, arith,
  not-true,
}
use surfgate.Common.Rows.{Forall, Forall-mono, any-Forall, Forall-both}
use surfgate.Contracts.Text.{Text, text_eq}
use surfgate.Contracts.Tasks.{Timestamp}
use surfgate.Session.Record.{Session}
use surfgate.Task.Record.{TaskRecord, parse_task}
use surfgate.Task.Transition.{parsed}
use surfgate.TaskStore.Transaction.{
  Database, AuditType, quota_denied, IdempotencyRow, Ensures, Ensures-answer, Ensures-bind,
  Ensures-lift, Ensures-throw_unless, Ensures-check, Ensures-modify, Ensures-if, Ensures-either,
  committed, Ensures-written, Ensures-read, answer,
}
use surfgate.TaskStore.Database.{clash, find_with, insert_task, task_from_row}
use surfgate.TaskStore.Sessions.{session_row}
use surfgate.TaskStore.Create.{
  CreateInput, idempotency_row, insert_idempotency, append_create_audit, create_task, within_quota,
  in_session, before_expiry, has_expired, is_active, deny, quota_full, found_task, existing,
  conflict, session_not_active, session_expired, quota_exceeded, claimed_before,
  created_or_existing, create_idempotent,
}
use surfgate.TaskStore.Sound.{
  Stored, Apart, Sound, IsSound, audited_Sound, parsed-Stored, find_with-Sound,
}

-- A new row at the head of the table.
module _ (t : TaskRecord) (db : Database) (s : Sound db) where
  fresh_Apart :
      any (λ u. u.id == t.id) db.tasks ≡ false
      → any (clash t) db.tasks ≡ false
      → Forall (Apart t) db.tasks
  fresh_Apart new free =
      Forall-both db.tasks (λ u e f. (==-comm t.id u.id ∙ e, f)) (any-Forall _ db.tasks new)
        (any-Forall _ db.tasks free)

  or_true : (a b : Bool) → b ≡ true → (a || b) ≡ true
  or_true a b h = ground arith

  inserted_Sound :
      any (λ u. u.id == t.id) db.tasks ≡ false
      → any (clash t) db.tasks ≡ false
      → Stored t
      → Sound (record db { tasks = t ∷ db.tasks })
  unfolding any
  inserted_Sound new free valid = record {
    stored = (valid, s.stored);
    apart = (fresh_Apart new free, s.apart);
    named = s.named;
    referenced = Forall-mono db.idempotency (λ r h. or_true _ _ h) s.referenced;
    one_artifact = s.one_artifact;
    owned = Forall-mono db.artifacts (λ a h. or_true _ _ h) s.owned;
  }

-- What `insert` leaves: the row that it has put in, under a new key, reads as its answer.
pub record Inserted (db : Database) (t : TaskRecord) (d : Database) : Type 0 where
  pub sound : Sound d
  pub row : TaskRecord
  pub tables : d ≡ record db { tasks = row ∷ db.tasks }
  pub reads : parsed (parse_task row) ≡ ok t
  pub new : any (λ u. u.id == row.id) db.tasks ≡ false

pub insert_task-Sound :
    (raw : TaskRecord) (db : Database) → Sound db → Ensures (Inserted db) (insert_task raw) db
unfolding insert_task task_from_row
insert_task-Sound raw db s = Ensures-lift _ _ _ db λ t e1. Ensures-check _ db _ _ _ λ new.
    Ensures-check _ db _ _ _ λ free. Ensures-modify _ db _ _ (
      Ensures-read _ _ _ λ u e2. record {
        sound = inserted_Sound t db s (not-true _ new) (not-true _ free) (parsed-Stored t u e2);
        row = t;
        tables = refl;
        reads = e2;
        new = not-true _ new;
      })

pub insert_idempotency-Sound :
    (r : IdempotencyRow) (db : Database) → Sound db → Ensures IsSound (insert_idempotency r) db
unfolding insert_idempotency
insert_idempotency-Sound r db s = Ensures-throw_unless _ db _ _ _ λ valid.
    Ensures-check _ db _ _ _ λ new. Ensures-check _ db _ _ _ λ known.
      Ensures-written _ _ db (record {
        stored = s.stored;
        apart = s.apart;
        named = (any-Forall _ db.idempotency (not-true _ new), s.named);
        referenced = (known, s.referenced);
        one_artifact = s.one_artifact;
        owned = s.owned;
      })

append_create_audit-Sound :
    (i : CreateInput) (k : AuditType) (at : Timestamp) (db : Database)
    → Sound db
    → Ensures IsSound (append_create_audit i k at) db
unfolding append_create_audit
append_create_audit-Sound i k at db s =
    Ensures-throw_unless _ db _ _ _
      λ e1. Ensures-throw_unless _ db _ _ _ λ e2. Ensures-written _ _ db (audited_Sound db _ s)

pub create_task-Sound :
    (i : CreateInput) (now : Timestamp) (db : Database)
    → Sound db
    → Ensures IsSound (create_task i now) db
unfolding create_task
create_task-Sound i now db s = Ensures-lift _ _ _ db λ draft e.
    Ensures-bind _ (Inserted db) (insert_task draft) _ db (insert_task-Sound draft db s) λ t d k.
      Ensures-bind _ IsSound (insert_idempotency _) _ d (insert_idempotency-Sound _ d k.sound)
        λ u d s.
          Ensures-bind _ IsSound (append_create_audit i _ now) _ d
            (append_create_audit-Sound i _ now d s)
            λ u d s.
              Ensures-bind _ IsSound (append_create_audit i _ now) _ d
                (append_create_audit-Sound i _ now d s) λ u d s. Ensures-answer _ _ d s

within_quota-Sound :
    (i : CreateInput) (now : Timestamp) (db : Database)
    → Sound db
    → Ensures IsSound (within_quota i now) db
unfolding within_quota deny
within_quota-Sound i now db s = record {
  at =
      (Ensures-if IsSound db (deny i now) (quota_full i now) (create_task i now)
        (λ full.
          Ensures-bind _ IsSound (append_create_audit i quota_denied now) _ db
            (append_create_audit-Sound i quota_denied now db s)
            (λ u d s. Ensures-answer _ quota_exceeded d s))
        (λ room. create_task-Sound i now db s)).at;
}

in_session-Sound :
    (i : CreateInput) (now : Timestamp) (session : Option Session) (db : Database)
    → Sound db
    → Ensures IsSound (in_session i now session) db
unfolding in_session before_expiry
in_session-Sound i now none db s = Ensures-answer _ _ db s
in_session-Sound i now (some session) db s =
    Ensures-either IsSound db _ (is_active session.status) (answer session_not_active)
      (λ e.
        Ensures-either IsSound db _ (has_expired session.expires_at now) (within_quota i now)
          (λ f. Ensures-answer _ session_expired db s) (λ f. within_quota-Sound i now db s))
      (λ e. Ensures-answer _ _ db s)

claimed_before-Sound :
    (tenant hash : Text) (row : IdempotencyRow) (db : Database)
    → Sound db
    → Ensures IsSound (claimed_before tenant hash row) db
unfolding claimed_before
claimed_before-Sound tenant hash row db s =
    Ensures-either IsSound db _ (row.request_hash == hash) (answer conflict)
      (λ e. Ensures-throw_unless _ db _ _ _ λ known.
        Ensures-bind _ IsSound (find_with tenant row.task_id) _ db
          (find_with-Sound tenant row.task_id db s) (λ found d s. answered found d s))
      (λ e. Ensures-answer _ conflict db s)
  where
    answered : (o : Option TaskRecord) (d : Database) → Sound d → Ensures IsSound (found_task o) d
    answered none d s = record { at = λ a c h. cc }
    answered (some t) d s = record { at = λ a c h. committed IsSound (existing t) d a c s h }

pub create_idempotent-Sound :
    (i : CreateInput) (now : Timestamp) (db : Database)
    → Sound db
    → Ensures IsSound (create_idempotent i now) db
unfolding create_idempotent
create_idempotent-Sound i now db s = record {
  at = (choose (idempotency_row i.tenant_id i.session_id i.idempotency_key db.idempotency)).at;
}
  where
    choose : (o : Option IdempotencyRow) → Ensures IsSound (created_or_existing i now o) db
    choose none = record {
      at = (in_session-Sound i now (session_row i.tenant_id i.session_id db.sessions) db s).at;
    }
    choose (some row) = record {
      at = (claimed_before-Sound i.tenant_id i.request_hash row db s).at;
    }
