-- ===== src/TaskStore/Limit.antt =====
-- task-postgres/src/repository.ts: which task `claimNext` picks, and how many tasks run.
use surfgate.Common.{
  ◌+◌, ◌≤◌, ◌≡◌, ◌≢◌, refl, ◌∙◌, ap, Bool, true, false, not, ◌&&◌, ◌==◌, ==-iff, some, List, ok,
  arith,
}
use Prim.Native.Nat.{Ordering}
use surfgate.Common.Comparisons.{
  IsComparison, or_else-IsComparison, pulled_back, compare-IsComparison,
}
use surfgate.Common.Sorted.{first_of-Forall, first_of-least}
use surfgate.Common.Rows.{
  Forall, Forall-mono, first_row-Forall, select-Forall, every_Forall, length-select-rewrite,
}
use surfgate.Contracts.Text.{Text, text_eq}
use surfgate.Contracts.Tasks.{Timestamp, running}
use surfgate.Router.Ranking.Order.{compare_text-IsComparison}
use surfgate.Task.Record.{TaskRecord, is_running}
use surfgate.TaskStore.Transaction.{Database}
use surfgate.TaskStore.Claim.{
  ClaimInput, is_claimable, is_occupied, holds_lease, running_count, claim_order, rank,
  claimable_rows, set_leased, has_version, claim_of_tenant,
}
use surfgate.TaskStore.Sound.{Apart, Sound, only}
use surfgate.TaskStore.Sound.Claim.{has_version-id}
use surfgate.TaskStore.Effects.{SameBut, parsed-SameBut, lease_granted}
use surfgate.TaskStore.Claimed.{Leased, claim_of_tenant-Claimed}

-- On sound tables, a tenant has no more unexpired leases than the limit after a claim of it that
-- commits with a task, whatever the tables were when the tenant was chosen.
pub claim_limit :
    (i : ClaimInput) (now : Timestamp) (locked : Text → Bool) (tenant : Text) (db d : Database)
    (u : TaskRecord)
    → Sound db
    → claim_of_tenant i now locked tenant db ≡ ok (some u, d)
    → running_count tenant now d.tasks ≤ i.max_running_per_tenant
unfolding running_count
claim_limit i now locked tenant db d u s e =
    let c = (claim_of_tenant-Claimed i now locked tenant db).at (some u) d e in
    let more =
      length-select-rewrite (has_version c.task) (set_leased c.leased.next) Apart
        (only (has_version c.task) (set_leased c.leased.next) c.task.id (has_version-id c.task)
          (λ t. (refl, refl, refl)))
        (λ t. t.tenant_id == tenant && holds_lease now t) db.tasks s.apart in
    rw c.leased.tasks (omega (arith, more, c.room))

claim_order-IsComparison : IsComparison claim_order
claim_order-IsComparison = or_else-IsComparison (pulled_back rank compare-IsComparison) (
    or_else-IsComparison (pulled_back (λ t. t.created_at) compare-IsComparison)
      (pulled_back (λ t. t.id) compare_text-IsComparison))

-- A row that a claim may pick.
pub record Free (tenant : Text) (locked : Text → Bool) (now : Timestamp) (ts : List TaskRecord)
    (t : TaskRecord) : Type 0 where
  pub of_tenant : t.tenant_id ≡ tenant
  pub claimable : is_claimable now t ≡ true
  pub session_idle : is_occupied now t ts ≡ false
  pub unlocked : locked t.id ≡ false

claimable_rows-Free :
    (tenant : Text) (locked : Text → Bool) (now : Timestamp) (ts : List TaskRecord)
    → Forall (Free tenant locked now ts) (claimable_rows tenant locked now ts)
unfolding claimable_rows
claimable_rows-Free tenant locked now ts =
    Forall-mono _ (λ t h. free t h.1)
      (select-Forall (λ t. Unit {0}) _ ts (every_Forall _ ts (λ t. tt)))
  where
    free :
        (t : TaskRecord)
        → (t.tenant_id == tenant
            && is_claimable now t
            && not (is_occupied now t ts)
            && not (locked t.id))
          ≡ true
        → Free tenant locked now ts t
    free t h = record {
      of_tenant = (==-iff t.tenant_id tenant).0 (ground arith);
      claimable = ground arith;
      session_idle = ground arith;
      unlocked = ground arith;
    }

-- What a claim leaves of the row that it has picked.
pub record Granted (i : ClaimInput) (now : Timestamp) (t u : TaskRecord) : Type 0 where
  pub same : (u.id ≡ t.id) × (u.tenant_id ≡ t.tenant_id)
  pub at_work : u.status ≡ running
  pub token : u.claim_token ≡ some i.claim_token
  pub until : u.lease_expires_at ≡ some (now + i.lease_ttl_ms)
  pub attempts : u.attempt_count ≡ t.attempt_count + 1

leased_Granted :
    (i : ClaimInput) (now : Timestamp) (t task : TaskRecord) (db d : Database) (u : TaskRecord)
    → SameBut t task
    → Leased i now task db u d
    → Granted i now t u
leased_Granted i now t task db d u read l =
    let (v, e1, e2) =
      lease_granted task l.next (is_running task.status) now i.claim_token (now + i.lease_ttl_ms)
        l.allowed in
    let e3 = parsed-SameBut _ u l.answered in
    let named : has_version task l.row ≡ true =
      (first_row-Forall (λ x. Unit {0}) _ db.tasks l.row (every_Forall _ db.tasks (λ x. tt))
        l.found).1 in
    record {
      same = (
        ap (λ x. x.id) e3.1 ∙ has_version-id task l.row named ∙ ap (λ x. x.id) read.1,
        ap (λ x. x.tenant_id) e3.1
            ∙ (==-iff l.row.tenant_id task.tenant_id).0 (ground (arith, named))
            ∙ ap (λ x. x.tenant_id) read.1,
      );
      at_work = ap (λ x. x.status) e3.1 ∙ ap (λ x. x.status) e2.1;
      token = ap (λ x. x.claim_token) e3.1 ∙ ap (λ x. x.claim_token) e2.1;
      until = ap (λ x. x.lease_expires_at) e3.1 ∙ ap (λ x. x.lease_expires_at) e2.1;
      attempts =
          ap (λ x. x.attempt_count) e3.1
          ∙ ap (λ x. x.attempt_count) e2.1
          ∙ ap (λ n. n + 1) (ap (λ x. x.attempt_count) e1.1 ∙ ap (λ x. x.attempt_count) read.1);
    }

-- A tenant's claim picks a row of the tenant that is due or abandoned, has attempts left, is not
-- locked and whose session has no other lease; no such row comes before it.
pub claim_pick :
    (i : ClaimInput) (now : Timestamp) (locked : Text → Bool) (tenant : Text) (db d : Database)
    (u : TaskRecord)
    → claim_of_tenant i now locked tenant db ≡ ok (some u, d)
    → (t : TaskRecord) × Free tenant locked now db.tasks t
      × Forall (λ r. claim_order t r ≢ Ordering.gt) (claimable_rows tenant locked now db.tasks)
      × Granted i now t u
claim_pick i now locked tenant db d u e =
    let c = (claim_of_tenant-Claimed i now locked tenant db).at (some u) d e in
    (
      c.picked,
      first_of-Forall claim_order _ _ c.picked (claimable_rows-Free tenant locked now db.tasks)
          c.first,
      first_of-least claim_order claim_order-IsComparison _ c.picked c.first,
      leased_Granted i now c.picked c.task db d u (parsed-SameBut _ _ c.reads) c.leased,
    )
