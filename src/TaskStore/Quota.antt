-- ===== src/TaskStore/Quota.antt =====
-- task-postgres/src/repository.ts: the quotas of a tenant, and leases that have run out.
use surfgate.Common.{ℕ, ◌+◌, ◌≤◌, ◌≡◌, Bool, false, ◌||◌, List, ◌∷◌, length, ok, arith, leb}
use surfgate.Common.Rows.{select}
use surfgate.Contracts.Text.{text_eq}
use surfgate.Contracts.Tasks.{Timestamp}
use surfgate.Task.Record.{TaskRecord}
use surfgate.TaskStore.Transaction.{Database}
use surfgate.TaskStore.Create.{
  CreateInput, created, quota_full, open_tasks, recent_tasks, create_idempotent,
}
use surfgate.TaskStore.Idempotent.{create_idempotent-Outcome}

length-select-cons :
    (q : TaskRecord → Bool) (t : TaskRecord) (ts : List TaskRecord)
    → length (select q (t ∷ ts)) ≤ length (select q ts) + 1
unfolding select
length-select-cons q t ts = ground arith

room_left :
    (few recent most most_recent : ℕ)
    → (leb most few || leb most_recent recent) ≡ false
    → (few + 1 ≤ most) × (recent + 1 ≤ most_recent)
room_left few recent most most_recent h = (ground arith, ground arith)

-- After a creation the tenant has no more open tasks, and no more tasks of the last minute, than
-- the limits that the caller gave.
pub create_idempotent_quota :
    (i : CreateInput) (now : Timestamp) (db d : Database) (t : TaskRecord)
    → create_idempotent i now db ≡ ok (created t, d)
    → (open_tasks i.tenant_id d.tasks ≤ i.max_queued_tasks)
      × (recent_tasks i.tenant_id now d.tasks ≤ i.max_tasks_per_minute)
unfolding quota_full open_tasks recent_tasks
create_idempotent_quota i now db d t e =
    let (room, c) = (create_idempotent-Outcome i now db).at (created t) d e in
    let (few, slow) =
      room_left (open_tasks i.tenant_id db.tasks) (recent_tasks i.tenant_id now db.tasks)
        i.max_queued_tasks i.max_tasks_per_minute room in
    rw c.tasks (
      omega (arith, few, length-select-cons _ c.row db.tasks),
      omega (arith, slow, length-select-cons _ c.row db.tasks),
    )
