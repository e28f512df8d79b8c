-- ===== src/TaskStore/Claimed.antt =====
-- task-postgres/src/repository.ts: what a claim that commits with a task has done.
use surfgate.Common.{◌<◌, ◌≡◌, refl, subst, ap, Bool, false, Option, none, some, ok, arith, leb}
use surfgate.Common.Sorting.{sort_by}
use surfgate.Common.Sorted.{first_of}
use surfgate.Common.Rows.{first_row, rewrite}
use surfgate.Contracts.Text.{Text, text_eq}
use surfgate.Contracts.Tasks.{Timestamp}
use surfgate.Task.Record.{TaskRecord, parse_task}
use surfgate.Task.Transition.{parsed, apply_task_transition}
use surfgate.TaskStore.Transaction.{
  Database, Ensures, Ensures-answer, Ensures-bind, Ensures-lift, Ensures-modify, Ensures-if, answer,
}
use surfgate.TaskStore.Database.{update_row, task_from_row, append_task_audit}
use surfgate.TaskStore.Claim.{
  ClaimInput, is_occupied, running_count, claim_order, claimable_rows, lease_event, set_leased,
  has_version, started, lease_task, unless_occupied, pick, claim_of_tenant,
}
use surfgate.TaskStore.Effects.{Effect, update_row-Effect}

-- A claim that commits with a task.
pub record Leased (i : ClaimInput) (now : Timestamp) (task : TaskRecord) (db : Database)
    (u : TaskRecord) (d : Database) : Type 0 where
  pub next : TaskRecord
  pub row : TaskRecord
  pub allowed : apply_task_transition task (lease_event i now task) ≡ ok next
  pub found : first_row (has_version task) db.tasks ≡ some row
  pub answered : parsed (parse_task (set_leased next row)) ≡ ok u
  pub tasks : d.tasks ≡ rewrite (has_version task) (set_leased next) db.tasks

-- What holds of the answer, if there is one.
abbrev pub IfSome : (TaskRecord → Database → Type 0) → Option TaskRecord → Database → Type 0
IfSome P none d = Unit {0}
IfSome P (some u) d = P u d

lease_task-Leased :
    (i : ClaimInput) (now : Timestamp) (task : TaskRecord) (db : Database)
    → Ensures (IfSome (Leased i now task db)) (lease_task i now task) db
unfolding lease_task started task_from_row append_task_audit
lease_task-Leased i now task db =
    Ensures-lift _ (apply_task_transition task (lease_event i now task)) _ db λ next e.
      Ensures-bind _ (Effect (has_version task) (set_leased next) db) (update_row _ _) _ db
        (update_row-Effect (has_version task) (set_leased next) db)
        (λ rows d h. begun next e rows d h)
  where
    begun :
        (next : TaskRecord)
        → apply_task_transition task (lease_event i now task) ≡ ok next
        → (rows : Option TaskRecord) (d : Database)
        → Effect (has_version task) (set_leased next) db rows d
        → Ensures (IfSome (Leased i now task db)) (started now rows) d
    begun next e none d h = Ensures-answer _ none d tt
    begun next e (some v) d h = Ensures-lift _ (parsed (parse_task v)) _ d λ u f.
        Ensures-modify _ d _ _ (
          Ensures-answer _ (some u) _ (record {
            next = next;
            row = h.row;
            allowed = e;
            found = h.found;
            answered = subst (λ x. parsed (parse_task x) ≡ ok u) h.returned f;
            tasks = ap (λ x. x.tasks) h.tables;
          }))

-- A tenant's claim that commits with a task: the limit left room, and the row was the first of
-- those that can be claimed.
pub record Claimed (i : ClaimInput) (now : Timestamp) (locked : Text → Bool) (tenant : Text)
    (db : Database) (u : TaskRecord) (d : Database) : Type 0 where
  pub room : running_count tenant now db.tasks < i.max_running_per_tenant
  pub picked : TaskRecord
  pub task : TaskRecord
  pub first :
      first_of (sort_by claim_order (claimable_rows tenant locked now db.tasks)) ≡ some picked
  pub reads : parsed (parse_task picked) ≡ ok task
  pub idle : is_occupied now task db.tasks ≡ false
  pub leased : Leased i now task db u d

pub claim_of_tenant-Claimed :
    (i : ClaimInput) (now : Timestamp) (locked : Text → Bool) (tenant : Text) (db : Database)
    → Ensures (IfSome (Claimed i now locked tenant db)) (claim_of_tenant i now locked tenant) db
unfolding claim_of_tenant pick unless_occupied task_from_row
claim_of_tenant-Claimed i now locked tenant db = record {
  at =
      (Ensures-if (IfSome (Claimed i now locked tenant db)) db (answer none)
        (λ d. leb i.max_running_per_tenant (running_count tenant now d.tasks))
        (λ d.
          pick i now (first_of (sort_by claim_order (claimable_rows tenant locked now d.tasks))) d)
        (λ full. Ensures-answer _ none db tt)
        (λ room. record {
          at =
              (chosen (first_of (sort_by claim_order (claimable_rows tenant locked now db.tasks)))
                refl room).at;
        })).at;
}
  where
    claimed :
        (row task : TaskRecord)
        → leb i.max_running_per_tenant (running_count tenant now db.tasks) ≡ false
        → first_of (sort_by claim_order (claimable_rows tenant locked now db.tasks)) ≡ some row
        → parsed (parse_task row) ≡ ok task
        → is_occupied now task db.tasks ≡ false
        → (o : Option TaskRecord) (d : Database) → IfSome (Leased i now task db) o d
        → IfSome (Claimed i now locked tenant db) o d
    claimed row task room e f idle none d h = tt
    claimed row task room e f idle (some u) d h = record {
      room = ground arith;
      picked = row;
      task = task;
      first = e;
      reads = f;
      idle = idle;
      leased = h;
    }

    chosen :
        (o : Option TaskRecord)
        → first_of (sort_by claim_order (claimable_rows tenant locked now db.tasks)) ≡ o
        → leb i.max_running_per_tenant (running_count tenant now db.tasks) ≡ false
        → Ensures (IfSome (Claimed i now locked tenant db)) (pick i now o) db
    chosen none e room = Ensures-answer _ none db tt
    chosen (some row) e room = Ensures-lift _ (parsed (parse_task row)) _ db λ task f. record {
      at =
          (Ensures-if (IfSome (Claimed i now locked tenant db)) db (answer none)
            (λ d. is_occupied now task d.tasks) (lease_task i now task)
            (λ busy. Ensures-answer _ none db tt)
            (λ idle. record {
              at = λ o d h.
                  claimed row task room e f idle o d ((lease_task-Leased i now task db).at o d h);
            })).at;
    }
