-- ===== src/TaskStore/Sound.antt =====
-- task-postgres/src/repository.ts: what the schema and the constraints say of the tables.
pub mod Change
pub mod Create
pub mod Claim
pub mod Calls
use surfgate.Common.{
  ◌≡◌, refl, sym, subst, ◌∙◌, ap, inl, inr, ◌⊎◌, Bool, true, false, not, ◌&&◌, ◌==◌, ==-iff,
  ==-comm, Option, none, some, List, [], ◌∷◌, any, Result, ok, err, arith, is_some, Option-cases,
  Bool-cases, not-true, if◌then◌else◌,
}
use surfgate.Common.Rows.{
  Forall, Pairwise, first_row, rewrite, any-Forall, Forall-mono, first_row-Forall, first_row-apart,
  rewrite-Forall, rewrite-Pairwise, any-rewrite, rewrite_one-Forall, rewrite_one-Pairwise,
  if_either, Forall-both,
}
use surfgate.Contracts.Text.{Text, text_eq}
use surfgate.Task.Record.{TaskRecord, is_running, parse_task}
use surfgate.Task.Transition.{parsed, schema_error}
use surfgate.TaskStore.Artifact.{ArtifactRecord}
use surfgate.TaskStore.Transaction.{
  Database, AuditEvent, lift, ◌>>=◌, Ensures-bind, Ensures-lift, IdempotencyRow, StoreError, Tx,
  Ensures, Ensures-answer, Ensures-check, Ensures-modify, one_running_per_session,
}
use surfgate.TaskStore.Database.{
  same_session, clash, owns, same_task, task_of_row, task_from_row, find_with, has_key, write_row,
  update_row, insert_task,
}
use surfgate.TaskStore.Change.{required}
use surfgate.TaskStore.Create.{names, refers_to}

-- A row that `taskFromRow` reads.
abbrev pub Stored : TaskRecord → Type 0
Stored t = is_some (parse_task t) ≡ true

-- Two rows that the primary key and the index on running tasks let stand together.
abbrev pub Apart : TaskRecord → TaskRecord → Type 0
Apart t u = ((t.id == u.id) ≡ false) × (clash t u ≡ false)

pub record Sound (db : Database) : Type 0 where
  pub stored : Forall Stored db.tasks
  pub apart : Pairwise Apart db.tasks
  pub named :
      Pairwise (λ r s. names r.tenant_id r.session_id r.idempotency_key s ≡ false) db.idempotency
  pub referenced : Forall (λ r. any (refers_to r) db.tasks ≡ true) db.idempotency
  pub one_artifact : Pairwise (λ a b. same_task a b ≡ false) db.artifacts
  pub owned : Forall (λ a. any (owns a) db.tasks ≡ true) db.artifacts

and_comm : (a b : Bool) → (a && b) ≡ (b && a)
and_comm a b = ground arith

clash_comm : (t u : TaskRecord) → clash u t ≡ clash t u
clash_comm t u =
    rw (==-comm u.tenant_id t.tenant_id, ==-comm u.session_id t.session_id)
      (swap (is_running u.status) (is_running t.status) (same_session t u))
  where
    swap : (a b c : Bool) → (a && b && c) ≡ (b && a && c)
    swap a b c = ground arith

pub Apart-turn : (t u : TaskRecord) → Apart t u → Apart u t
Apart-turn t u h = (==-comm u.id t.id ∙ h.0, clash_comm t u ∙ h.1)

-- An update that keeps the keys of a row.
abbrev pub KeepsKey : (TaskRecord → TaskRecord) → Type 0
KeepsKey f =
    (t : TaskRecord)
    → ((f t).id ≡ t.id) × ((f t).tenant_id ≡ t.tenant_id) × ((f t).session_id ≡ t.session_id)

-- What an update leaves: with no row changed the tables are sound, and with one changed they are
-- sound if the schema admits it.
abbrev pub Updated : Option TaskRecord → Database → Type 0
Updated none db = Sound db
Updated (some u) db = Stored u → Sound db

module _ (p : TaskRecord → Bool) (f : TaskRecord → TaskRecord) (id : Text)
    (keyed : (t : TaskRecord) → p t ≡ true → t.id ≡ id) (keeps : KeepsKey f) where
  pub only : (t u : TaskRecord) → Apart t u → p t ≡ true → p u ≡ false
  only t u h e = elim (Bool-cases (p u)) [
    | inl k ↦ absurd (cc ((==-iff t.id u.id).1 (keyed t e ∙ sym (keyed u k)), h.0))
    | inr k ↦ k
  ]

  module _ (db : Database) (s : Sound db) where
    new_row :
        (row : TaskRecord)
        → first_row p db.tasks ≡ some row
        → any (λ u. not (p u) && clash (f row) u) db.tasks ≡ false
        → Forall (λ u. p u ≡ false → Apart (f row) u) db.tasks
    new_row row e free =
        Forall-both db.tasks
          (λ u a c out.
            (ap (λ i. i == u.id) (keeps row).0 ∙ (a out).0, left_out (p u) (clash (f row) u) out c))
          (first_row-apart Apart Apart-turn p db.tasks row s.apart e) (any-Forall _ db.tasks free)
      where
        left_out : (b c : Bool) → b ≡ false → (not b && c) ≡ false → c ≡ false
        left_out b c h k = ground arith

    same_keys :
        (r_tenant r_id r_session : Text) (t : TaskRecord)
        → (has_key r_tenant r_id (f t) && (f t).session_id == r_session)
          ≡ (has_key r_tenant r_id t && t.session_id == r_session)
    same_keys tenant id session t = rw ((keeps t).0, (keeps t).1, (keeps t).2) refl

    updated-Sound :
        (row : TaskRecord)
        → first_row p db.tasks ≡ some row
        → any (λ u. not (p u) && clash (f row) u) db.tasks ≡ false
        → Stored (f row)
        → Sound (record db { tasks = rewrite p f db.tasks })
    updated-Sound row e free valid = record {
      stored = rewrite_one-Forall p f Apart only Stored db.tasks row s.apart e valid s.stored;
      apart =
          rewrite_one-Pairwise p f Apart only Apart-turn db.tasks row s.apart e
            (new_row row e free);
      named = s.named;
      referenced =
          Forall-mono db.idempotency
            (λ r k.
              any-rewrite p f (refers_to r) db.tasks (same_keys r.tenant_id r.task_id r.session_id)
              ∙ k)
            s.referenced;
      one_artifact = s.one_artifact;
      owned =
          Forall-mono db.artifacts
            (λ a k.
              any-rewrite p f (owns a) db.tasks (same_keys a.tenant_id a.task_id a.session_id) ∙ k)
            s.owned;
    }

    pub update_row-Sound : Ensures Updated (update_row p f) db
    unfolding update_row write_row
    update_row-Sound = record { at = (found (first_row p db.tasks) refl).at }
      where
        found :
            (o : Option TaskRecord)
            → first_row p db.tasks ≡ o
            → Ensures Updated (write_row p f o) db
        found none e = Ensures-answer _ _ db s
        found (some row) e = Ensures-check _ db _ _ _ λ free.
            Ensures-modify _ db _ _ (Ensures-answer _ _ _ (updated-Sound row e (not-true _ free)))

pub audited_Sound :
    (db : Database) (es : List AuditEvent) → Sound db → Sound (record db { audit = es })
audited_Sound db es s = record {
  stored = s.stored;
  apart = s.apart;
  named = s.named;
  referenced = s.referenced;
  one_artifact = s.one_artifact;
  owned = s.owned;
}

abbrev pub IsSound : {A : Type 0} → A → Database → Type 0
IsSound a db = Sound db

pub parsed-Stored : (t u : TaskRecord) → parsed (parse_task t) ≡ ok u → Stored t
parsed-Stored t u h = ground (arith, Option-cases (parse_task t))

-- The rows that an update returns, read and required.
pub Ensures-required :
    {A : Type 0} (Q : A → Database → Type 0) (rows : Option TaskRecord) (d : Database)
    (rest : TaskRecord → Tx A)
    → Updated rows d
    → ((t : TaskRecord) → Sound d → Ensures Q (rest t) d)
    → Ensures Q (lift (required rows) >>= λ row. lift (parsed (parse_task row)) >>= rest) d
Ensures-required Q rows d rest h k = Ensures-lift Q (required rows) _ d λ row e.
    Ensures-lift Q (parsed (parse_task row)) rest d
      λ t f. k t (found rows row h e (parsed-Stored row t f))
  where
    found :
        (rows : Option TaskRecord) (row : TaskRecord)
        → Updated rows d
        → required rows ≡ ok row
        → Stored row
        → Sound d
    found none row h e v = cc
    found (some r) row h e v = h (let same : row ≡ r = ground arith in subst Stored same v)

-- A read changes nothing.
pub find_with-Sound :
    (tenant id : Text) (db : Database) → Sound db → Ensures IsSound (find_with tenant id) db
unfolding find_with task_of_row task_from_row
find_with-Sound tenant id db s = record { at = (read (first_row (has_key tenant id) db.tasks)).at }
  where
    read : (o : Option TaskRecord) → Ensures IsSound (task_of_row o) db
    read none = Ensures-answer _ _ db s
    read (some row) = Ensures-lift _ _ _ db λ t e. Ensures-answer _ _ db s
