-- ===== src/TaskStore/Exclusive.antt =====
-- task-postgres/src/repository.ts: `transition` as a compare-and-set on a row.
use surfgate.Common.{ℕ, ◌+◌, ◌≡◌, sym, ◌∙◌, ap, Bool, true, ==-iff, ok, arith, nat_eq_iff}
use surfgate.Common.Rows.{
  Forall, Forall-mono, first_row-Forall, first_row-apart, rewrite_split-Forall, every_Forall,
}
use surfgate.Contracts.Text.{Text, text_eq}
use surfgate.Contracts.Tasks.{Timestamp}
use surfgate.Task.Record.{TaskRecord}
use surfgate.TaskStore.Transaction.{Database}
use surfgate.TaskStore.Change.{TransitionInput, unchanged, write_transition}
use surfgate.TaskStore.Sound.{Apart, Apart-turn, Sound}
use surfgate.TaskStore.Effects.{Written, write_transition-Written, apply_task_transition-version}

-- The task with an identifier has a version.
abbrev HasVersion : Text → ℕ → TaskRecord → Type 0
HasVersion id n t = t.id ≡ id → t.version ≡ n

module _ (i : TransitionInput) (current : TaskRecord) (at : Timestamp) (db : Database)
    (s : Sound db) (t : TaskRecord) (d : Database) (w : Written i current at db t d) where
  matches : TaskRecord → Bool
  matches = unchanged i.tenant_id i.task_id current.version i.expected_claim_token

  row_matches : matches w.row ≡ true
  unfolding matches
  row_matches =
      (first_row-Forall (λ u. Unit {0}) _ db.tasks w.row (every_Forall _ db.tasks (λ u. tt))
        w.found).1

  row_id : w.row.id ≡ i.task_id
  unfolding matches
  row_id = (==-iff w.row.id i.task_id).0 (ground (arith, row_matches))

  -- The write has counted up the version of the task, and no other row has its identifier.
  written_version : Forall (HasVersion i.task_id (i.expected_version + 1)) d.tasks
  written_version = rw w.tasks (
      rewrite_split-Forall _ _ _ db.tasks
        (every_Forall _ db.tasks λ u e id.
          apply_task_transition-version current w.next w.event w.allowed
          ∙ ap (λ n. n + 1) w.expected)
        (Forall-mono db.tasks
          (λ u k e id. absurd (cc ((==-iff w.row.id u.id).1 (row_id ∙ sym id), (k e).0)))
          (first_row-apart Apart Apart-turn _ db.tasks w.row s.apart w.found)))

-- On sound tables, of two transitions that expect the same version of a task only one commits: once the first has
-- committed, the other throws, whatever it has read before.
pub write_transition_exclusive :
    (i j : TransitionInput) (current other : TaskRecord) (at later : Timestamp) (db d e : Database)
    (t u : TaskRecord)
    → Sound db
    → j.task_id ≡ i.task_id
    → j.expected_version ≡ i.expected_version
    → write_transition i current at db ≡ ok (t, d)
    → ¬ (write_transition j other later d ≡ ok (u, e))
write_transition_exclusive i j current other at later db d e t u s same version first second =
    let w = (write_transition-Written i current at db).at t d first in
    let v = (write_transition-Written j other later d).at u e second in
    let (known, matched) =
      first_row-Forall (HasVersion i.task_id (i.expected_version + 1)) _ d.tasks v.row
        (written_version i current at db s t d w) v.found in
    let id : v.row.id ≡ j.task_id = (==-iff v.row.id j.task_id).0 (ground (arith, matched)) in
    let number : v.row.version ≡ other.version = (nat_eq_iff _ _).0 (ground (arith, matched)) in
    let new = known (id ∙ same) in omega (arith, new, number, v.expected, version)
