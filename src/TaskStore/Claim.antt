-- ===== src/TaskStore/Claim.antt =====
-- task-postgres/src/repository.ts: `claimNext`.
use Prim.Native.Nat.{Ordering, compare}
use surfgate.Common.{
  nat_eq, map, ℕ, ◌+◌, Bool, false, not, ◌&&◌, ◌||◌, ◌==◌, Option, none, some, List, [], ◌∷◌, leb,
  ltb, any, length, Result, ok, err, if◌then◌else◌,
}
use surfgate.Common.Sorting.{sort_by}
use surfgate.Common.Comparisons.{or_else}
use surfgate.Common.Sorted.{first_of}
use surfgate.Common.Rows.{select, rewrite}
use surfgate.Contracts.Text.{Text, text_eq}
use surfgate.Contracts.Tasks.{Timestamp, failed, task_execution_failed}
use surfgate.Task.Record.{TaskRecord, is_running, max_safe_integer}
use surfgate.Task.Transition.{
  TransitionEvent, claim, reclaim, can_claim, can_reclaim, apply_task_transition,
}
use surfgate.Router.Candidate.{compare_text}
use surfgate.TaskStore.Transaction.{
  task_started, task_failed, Database, StoreError, invalid_lease, one_running_per_session, Tx,
  answer, lift, throw_unless, ◌>>=◌, ◌>>◌,
}
use surfgate.TaskStore.Database.{
  has_key, same_session, task_from_row, update_row, append_task_audit,
}

pub record ClaimInput : Type 0 where
  pub claim_token : Text
  pub lease_ttl_ms : ℕ
  pub max_running_per_tenant : ℕ

-- `lease_expires_at > $1`, which no row without a lease satisfies.
abbrev pub later_than : Timestamp → Option Timestamp → Bool
later_than now none = false
later_than now (some lease) = ltb now lease

-- `status='running' and lease_expires_at > $1`
abbrev pub holds_lease : Timestamp → TaskRecord → Bool
holds_lease now t = is_running t.status && later_than now t.lease_expires_at

-- `status='running' and lease_expires_at <= $1 and attempt_count >= max_attempts`
abbrev pub is_exhausted : Timestamp → TaskRecord → Bool
is_exhausted now t =
    can_reclaim t.status t.lease_expires_at now && leb t.max_attempts t.attempt_count

abbrev pub give_up : Timestamp → TaskRecord → TaskRecord
give_up now t = record t {
  status = failed;
  failure_code = some task_execution_failed;
  failed_at = some now;
  updated_at = now;
  claim_token = none;
  lease_expires_at = none;
  version = t.version + 1;
}

unfoldable pub audit_exhausted : Timestamp → List TaskRecord → Tx (Unit {0})
unfolding task_from_row append_task_audit
audit_exhausted now [] = answer tt
audit_exhausted now (row ∷ rows) = do
  task ← task_from_row row
  append_task_audit task task_failed now none (some task_execution_failed)
  audit_exhausted now rows

-- Fails the tasks whose last lease has run out.
unfoldable pub fail_exhausted : Timestamp → Tx (Unit {0})
unfolding select rewrite audit_exhausted
fail_exhausted now db =
    audit_exhausted now (map (give_up now) (select (is_exhausted now) db.tasks))
      (record db { tasks = rewrite (is_exhausted now) (give_up now) db.tasks })

-- The condition on a candidate but for the other tasks.
abbrev pub is_claimable : Timestamp → TaskRecord → Bool
is_claimable now t =
    (can_claim t.status t.next_attempt_at now || can_reclaim t.status t.lease_expires_at now)
    && ltb t.attempt_count t.max_attempts

-- Another task of the session holds a lease.
abbrev pub occupies : Timestamp → TaskRecord → TaskRecord → Bool
occupies now t u = same_session t u && not (u.id == t.id) && holds_lease now u

unfoldable pub is_occupied : Timestamp → TaskRecord → List TaskRecord → Bool
unfolding any
is_occupied now t ts = any (occupies now t) ts

-- The tasks of a tenant that hold a lease.
unfoldable pub running_count : Text → Timestamp → List TaskRecord → ℕ
unfolding select
running_count tenant now ts = length (select (λ t. t.tenant_id == tenant && holds_lease now t) ts)

-- `case when status='running' then 0 else 1 end`
abbrev pub rank : TaskRecord → ℕ
rank t = if is_running t.status then 0 else 1

-- `order by case when status='running' then 0 else 1 end, created_at, id`
abbrev pub claim_order : TaskRecord → TaskRecord → Ordering
claim_order t u =
    or_else (compare (rank t) (rank u))
      (or_else (compare t.created_at u.created_at) (compare_text t.id u.id))

-- The tasks among which a tenant is chosen.
unfoldable pub candidates : ClaimInput → Timestamp → List TaskRecord → List TaskRecord
unfolding select is_occupied running_count
candidates i now ts =
    select
      (λ t.
        is_claimable now t
        && ltb (running_count t.tenant_id now ts) i.max_running_per_tenant
        && not (is_occupied now t ts))
      ts

-- The tasks of the tenant that can be claimed; `for update skip locked` leaves out the rows
-- that other transactions have locked.
unfoldable pub claimable_rows : Text → (Text → Bool) → Timestamp → List TaskRecord → List TaskRecord
unfolding select is_occupied
claimable_rows tenant locked now ts =
    select
      (λ t.
        t.tenant_id == tenant
        && is_claimable now t
        && not (is_occupied now t ts)
        && not (locked t.id))
      ts

abbrev pub lease_event : ClaimInput → Timestamp → TaskRecord → TransitionEvent
lease_event i now t =
    if is_running t.status
    then reclaim now i.claim_token (now + i.lease_ttl_ms)
    else claim now i.claim_token (now + i.lease_ttl_ms)

-- The columns that the statement sets.
abbrev pub set_leased : TaskRecord → TaskRecord → TaskRecord
set_leased next row = record row {
  status = next.status;
  attempt_count = next.attempt_count;
  updated_at = next.updated_at;
  started_at = next.started_at;
  next_attempt_at = none;
  claim_token = next.claim_token;
  lease_expires_at = next.lease_expires_at;
  version = next.version;
}

-- `where tenant_id=$1 and id=$2 and version=$10`
abbrev pub has_version : TaskRecord → TaskRecord → Bool
has_version task t = has_key task.tenant_id task.id t && nat_eq t.version task.version

unfoldable pub started : Timestamp → Option TaskRecord → Tx (Option TaskRecord)
unfolding task_from_row append_task_audit
started now none = answer none
started now (some row) = do
  task ← task_from_row row
  append_task_audit task task_started now none none
  answer (some task)

-- The transition of the task that was picked.
unfoldable pub lease_task : ClaimInput → Timestamp → TaskRecord → Tx (Option TaskRecord)
unfolding update_row started
lease_task i now task = do
  next ← lift (apply_task_transition task (lease_event i now task))
  rows ← update_row (has_version task) (set_leased next)
  started now rows

unfoldable pub unless_occupied : ClaimInput → Timestamp → TaskRecord → Tx (Option TaskRecord)
unfolding is_occupied lease_task
unless_occupied i now task db =
    if is_occupied now task db.tasks then answer none db else lease_task i now task db

unfoldable pub pick : ClaimInput → Timestamp → Option TaskRecord → Tx (Option TaskRecord)
unfolding task_from_row unless_occupied
pick i now none = answer none
pick i now (some row) = do task ← task_from_row row; unless_occupied i now task

-- The part behind the advisory lock of the tenant. The tenant was chosen before the lock, so the
-- tables need not be those that it was chosen from.
unfoldable pub claim_of_tenant :
    ClaimInput → Timestamp → (Text → Bool) → Text → Tx (Option TaskRecord)
unfolding running_count claimable_rows pick sort_by
claim_of_tenant i now locked tenant db =
    if leb i.max_running_per_tenant (running_count tenant now db.tasks)
    then answer none db
    else pick i now (first_of (sort_by claim_order (claimable_rows tenant locked now db.tasks))) db

unfoldable pub of_tenant :
    ClaimInput → Timestamp → (Text → Bool) → Option TaskRecord → Tx (Option TaskRecord)
unfolding claim_of_tenant
of_tenant i now locked none = answer none
of_tenant i now locked (some t) = claim_of_tenant i now locked t.tenant_id

unfoldable pub choose : ClaimInput → Timestamp → (Text → Bool) → Tx (Option TaskRecord)
unfolding candidates sort_by of_tenant
choose i now locked db =
    of_tenant i now locked (first_of (sort_by claim_order (candidates i now db.tasks))) db

-- The transaction of `claimNext`.
unfoldable pub claim_transaction : ClaimInput → Timestamp → (Text → Bool) → Tx (Option TaskRecord)
unfolding fail_exhausted choose
claim_transaction i now locked = do fail_exhausted now; choose i now locked

-- The `catch`: the tables are those before the transaction.
abbrev pub or_none :
    Database
    → Result StoreError (Option TaskRecord × Database)
    → Result StoreError (Option TaskRecord × Database)
or_none db (err one_running_per_session) = ok (none, db)
or_none db r = r

unfoldable pub or_null : Tx (Option TaskRecord) → Tx (Option TaskRecord)
or_null m db = or_none db (m db)

-- `claimNext`; `now` is the database's clock and `locked` tells which rows are locked.
unfoldable pub claim_next : ClaimInput → Timestamp → (Text → Bool) → Tx (Option TaskRecord)
unfolding claim_transaction or_null
claim_next i now locked = do
  throw_unless (leb 1000 i.lease_ttl_ms && leb i.lease_ttl_ms max_safe_integer) invalid_lease
  or_null (claim_transaction i now locked)
