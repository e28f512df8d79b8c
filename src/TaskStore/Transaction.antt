-- ===== src/TaskStore/Transaction.antt =====
-- task-postgres/src/repository.ts: the tables the repository works on, and transactions.
use surfgate.Common.{
  ℕ, Bool, true, false, Option, List, Result, ok, err, if◌then◌else◌, ◌≡◌, refl, subst,
}
use surfgate.Contracts.Text.{Text}
use surfgate.Contracts.Tasks.{ManagedTaskType, TaskFailureCode, Timestamp}
use surfgate.Task.Record.{TaskRecord}
use surfgate.Task.Transition.{TaskError}
use surfgate.Session.Record.{Session}
use surfgate.TaskStore.Artifact.{ArtifactRecord}

pub data AuditType : Type 0 where
  task_create_requested task_queued quota_denied task_started task_succeeded task_failed
        task_cancelled task_retry_scheduled artifact_created :
      AuditType

-- The `metadata` of an event: of a task, of a task that is created, of a refusal.
pub data Metadata : Type 0 where
  about_task :
      (task_type : ManagedTaskType) (attempt_count : ℕ) (error_code : Option TaskFailureCode)
      → Metadata
  about_creation : (task_type : ManagedTaskType) → Metadata
  about_quota : Metadata

-- A row of `audit_events`.
pub record AuditEvent : Type 0 where
  pub tenant_id : Text
  pub event_type : AuditType
  pub request_id : Text
  pub session_id : Text
  pub task_id : Option Text
  pub artifact_id : Option Text
  pub api_key_id : Option Text
  pub metadata : Metadata
  pub created_at : Timestamp

-- A row of `task_create_idempotency`.
pub record IdempotencyRow : Type 0 where
  pub tenant_id : Text
  pub session_id : Text
  pub idempotency_key : Text
  pub request_hash : Text
  pub task_id : Text
  pub created_at : Timestamp

-- The tables; a column of `managed_tasks` is a field of the task, its instants in milliseconds.
pub record Database : Type 0 where
  pub tasks : List TaskRecord
  pub sessions : List Session
  pub idempotency : List IdempotencyRow
  pub artifacts : List ArtifactRecord
  pub audit : List AuditEvent

-- What a transaction throws: the state machine's or a schema's error, an error of its own, or a
-- constraint of a table that a statement violates.
pub data StoreError : Type 0 where
  task_error : (thrown : TaskError) → StoreError
  inconsistent_record invalid_lease invalid_retention : StoreError
  one_running_per_session primary_key foreign_key check_violation : StoreError

-- A transaction: what it has thrown, and then nothing has changed, or its answer and the tables.
abbrev pub Tx : Type 0 → Type 0
Tx A = Database → Result StoreError (A × Database)

module _ {A : Type 0} where
  unfoldable pub answer : A → Tx A
  answer a db = ok (a, db)

  unfoldable pub lift : Result TaskError A → Tx A
  lift (ok a) db = ok (a, db)
  lift (err e) db = err (task_error e)

unfoldable pub throw_unless : Bool → StoreError → Tx (Unit {0})
throw_unless true e db = ok (tt, db)
throw_unless false e db = err e

unfoldable pub check : (Database → Bool) → StoreError → Tx (Unit {0})
unfolding throw_unless
check p e db = throw_unless (p db) e db

unfoldable pub modify : (Database → Database) → Tx (Unit {0})
modify f db = ok (tt, f db)

infixl 5 ◌>>=◌ ◌>>◌
unfoldable pub ◌>>=◌ : {A B : Type 0} → Tx A → (A → Tx B) → Tx B
◌>>=◌ m f db = elim (m db) [ ok r ↦ f r.0 r.1 | err e ↦ err e ]

abbrev pub ◌>>◌ : {B : Type 0} → Tx (Unit {0}) → Tx B → Tx B
m >> k = m >>= λ _. k

-- To compute with transactions.
pub ruleset transactions = (answer, lift, throw_unless, check, modify, ◌>>=◌)

-- What holds of the answer and the tables wherever a transaction commits.
pub record Ensures {A : Type 0} (Q : A → Database → Type 0) (m : Tx A) (db : Database)
    : Type 0 where
  pub at : (a : A) (d : Database) → m db ≡ ok (a, d) → Q a d

abbrev commit : {A : Type 0} → A → Database → Result StoreError (A × Database)
commit a db = ok (a, db)

pub committed :
    {A : Type 0} (Q : A → Database → Type 0) (a : A) (db : Database) (b : A) (d : Database)
    → Q a db
    → commit a db ≡ commit b d
    → Q b d
committed Q a db b d q h = subst (λ r. elim r [ ok x ↦ Q x.0 x.1 | err e ↦ Unit {0} ]) h q

module _ {A : Type 0} where
  pub Ensures-answer :
      (Q : A → Database → Type 0) (a : A) (db : Database) → Q a db → Ensures Q (answer a) db
  unfolding answer
  Ensures-answer Q a db q = record { at = λ b d h. committed Q a db b d q h }

  pub Ensures-read :
      (Q : A → Database → Type 0) (c : Result TaskError A) (db : Database)
      → ((a : A) → c ≡ ok a → Q a db)
      → Ensures Q (lift c) db
  unfolding lift
  Ensures-read Q (ok a) db k = record { at = λ b d h. committed Q a db b d (k a refl) h }
  Ensures-read Q (err e) db k = record { at = λ b d h. cc }

  module _ {B : Type 0} (Q : B → Database → Type 0) where
    pub Ensures-bind :
        (P : A → Database → Type 0) (m : Tx A) (f : A → Tx B) (db : Database)
        → Ensures P m db
        → ((a : A) (d : Database) → P a d → Ensures Q (f a) d)
        → Ensures Q (m >>= f) db
    unfolding ◌>>=◌
    Ensures-bind P m f db h k = record { at = λ b d e. through (m db) refl b d e }
      where
        through :
            (r : Result StoreError (A × Database))
            → m db ≡ r
            → (b : B) (d : Database) → (elim r [ ok r ↦ f r.0 r.1 | err e ↦ err e ]) ≡ ok (b, d)
            → Q b d
        through (err x) e b d g = cc
        through (ok (a, c)) e b d g = (k a c (h.at a c e)).at b d g

    pub Ensures-lift :
        (c : Result TaskError A) (f : A → Tx B) (db : Database)
        → ((a : A) → c ≡ ok a → Ensures Q (f a) db)
        → Ensures Q (lift c >>= f) db
    unfolding lift ◌>>=◌
    Ensures-lift (ok a) f db k = record { at = (k a refl).at }
    Ensures-lift (err e) f db k = record { at = λ b d h. cc }

pub Ensures-written :
    (Q : Unit {0} → Database → Type 0) (f : Database → Database) (db : Database)
    → Q tt (f db)
    → Ensures Q (modify f) db
unfolding modify
Ensures-written Q f db q = record { at = λ b d h. committed Q tt (f db) b d q h }

module _ {B : Type 0} (Q : B → Database → Type 0) (db : Database) (rest : Tx B) where
  pub Ensures-throw_unless :
      (b : Bool) (e : StoreError)
      → (b ≡ true → Ensures Q rest db)
      → Ensures Q (throw_unless b e >> rest) db
  unfolding throw_unless ◌>>=◌
  Ensures-throw_unless true e k = record { at = (k refl).at }
  Ensures-throw_unless false e k = record { at = λ b d h. cc }

  pub Ensures-check :
      (p : Database → Bool) (e : StoreError)
      → (p db ≡ true → Ensures Q rest db)
      → Ensures Q (check p e >> rest) db
  unfolding check ◌>>=◌
  Ensures-check p e k = record { at = (Ensures-throw_unless (p db) e k).at }

  pub Ensures-either :
      (b : Bool) (other : Tx B)
      → (b ≡ true → Ensures Q rest db)
      → (b ≡ false → Ensures Q other db)
      → Ensures Q (if b then rest else other) db
  Ensures-either true other k l = k refl
  Ensures-either false other k l = l refl

  pub Ensures-if :
      (p : Database → Bool) (other : Tx B)
      → (p db ≡ true → Ensures Q rest db)
      → (p db ≡ false → Ensures Q other db)
      → Ensures Q (λ d. if p d then rest d else other d) db
  Ensures-if p other k l = record {
    at = λ b d.
        elim (p db) as (λ c. p db ≡ c → (if c then rest db else other db) ≡ ok (b, d) → Q b d) [
          | true ↦ λ e h. (k e).at b d h
          | false ↦ λ e h. (l e).at b d h
        ]
          refl;
  }

  pub Ensures-modify :
      (f : Database → Database) → Ensures Q rest (f db) → Ensures Q (modify f >> rest) db
  unfolding modify ◌>>=◌
  Ensures-modify f k = record { at = k.at }
