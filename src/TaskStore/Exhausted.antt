-- ===== src/TaskStore/Exhausted.antt =====
-- task-postgres/src/repository.ts: the tasks whose last lease has run out.
use surfgate.Common.{
  ◌+◌, ◌≤◌, ◌≡◌, refl, ap, inl, inr, ◌⊎◌, true, false, Option, none, some, List, [], ◌∷◌, ok, arith,
  leb→le, Bool-cases, &&-left, &&-right,
}
use surfgate.Common.Rows.{rewrite}
use surfgate.Contracts.Tasks.{
  Timestamp, TaskStatus, queued, running, retry_pending, succeeded, failed, cancelled,
  task_execution_failed,
}
use surfgate.Task.Record.{TaskRecord}
use surfgate.Task.Transition.{can_reclaim}
use surfgate.TaskStore.Transaction.{Database}
use surfgate.TaskStore.Claim.{is_exhausted, give_up, fail_exhausted}
use surfgate.TaskStore.Sound.Claim.{audit_exhausted-Audited}

-- A running task whose lease is over and that has no attempt left.
pub record WornOut (now : Timestamp) (t : TaskRecord) : Type 0 where
  pub runs : t.status ≡ running
  pub lease : Timestamp
  pub leased_until : t.lease_expires_at ≡ some lease
  pub over : lease ≤ now
  pub attempts : t.max_attempts ≤ t.attempt_count

-- The same task, failed.
pub record GivenUp (now : Timestamp) (t u : TaskRecord) : Type 0 where
  pub status : u.status ≡ failed
  pub code : u.failure_code ≡ some task_execution_failed
  pub failed_at : u.failed_at ≡ some now
  pub updated_at : u.updated_at ≡ now
  pub no_token : u.claim_token ≡ none
  pub no_lease : u.lease_expires_at ≡ none
  pub version : u.version ≡ t.version + 1
  pub keys : (u.id ≡ t.id) × (u.tenant_id ≡ t.tenant_id) × (u.session_id ≡ t.session_id)
  pub asked : (u.request ≡ t.request) × (u.attempt_count ≡ t.attempt_count)

-- Row by row, the worn out tasks have failed and the others are as they were.
abbrev pub Cleaned : Timestamp → List TaskRecord → List TaskRecord → Type 0
Cleaned now [] [] = Unit {0}
Cleaned now [] (u ∷ us) = ⊥
Cleaned now (t ∷ ts) [] = ⊥
Cleaned now (t ∷ ts) (u ∷ us) =
    ((WornOut now t × GivenUp now t u) ⊎ ((WornOut now t → ⊥) × (u ≡ t))) × Cleaned now ts us

reclaimable :
    (status : TaskStatus) (lease : Option Timestamp) (now : Timestamp)
    → can_reclaim status lease now ≡ true
    → (status ≡ running) × ((n : Timestamp) × (lease ≡ some n) × (n ≤ now))
reclaimable running none now h = cc
reclaimable running (some n) now h = (refl, (n, refl, leb→le n now h))
reclaimable queued lease now h = cc
reclaimable retry_pending lease now h = cc
reclaimable succeeded lease now h = cc
reclaimable failed lease now h = cc
reclaimable cancelled lease now h = cc

exhausted-WornOut : (now : Timestamp) (t : TaskRecord) → is_exhausted now t ≡ true → WornOut now t
exhausted-WornOut now t h =
    let (runs, (n, held, over)) =
      reclaimable t.status t.lease_expires_at now (&&-left (can_reclaim _ _ now) _ h) in
    record {
      runs = runs;
      lease = n;
      leased_until = held;
      over = over;
      attempts = leb→le _ _ (&&-right (can_reclaim t.status t.lease_expires_at now) _ h);
    }

not-WornOut : (now : Timestamp) (t : TaskRecord) → is_exhausted now t ≡ false → WornOut now t → ⊥
not-WornOut now t h w = ground (arith, h, w.runs, w.leased_until, w.over, w.attempts)

rewrite-Cleaned :
    (now : Timestamp) (ts : List TaskRecord)
    → Cleaned now ts (rewrite (is_exhausted now) (give_up now) ts)
unfolding rewrite
rewrite-Cleaned now [] = tt
rewrite-Cleaned now (t ∷ ts) = elim (Bool-cases (is_exhausted now t)) [
  | inl e ↦ (
    rw e (
        inl (
          exhausted-WornOut now t e,
          record {
            status = refl;
            code = refl;
            failed_at = refl;
            updated_at = refl;
            no_token = refl;
            no_lease = refl;
            version = refl;
            keys = (refl, refl, refl);
            asked = (refl, refl);
          },
        )),
    rewrite-Cleaned now ts,
  )
  | inr e ↦ (rw e (inr (not-WornOut now t e, refl)), rewrite-Cleaned now ts)
]

-- When claimNext deals with the leases that have run out, every running task whose lease is over
-- and that has no attempt left is failed at that instant, with the code of a failed execution, no
-- lease and the next version, and every other task, session, idempotency row and artifact stays as
-- it is.
pub fail_exhausted-Cleaned :
    (now : Timestamp) (db d : Database)
    → fail_exhausted now db ≡ ok (tt, d)
    → Cleaned now db.tasks d.tasks
      × (d.sessions ≡ db.sessions)
      × (d.idempotency ≡ db.idempotency)
      × (d.artifacts ≡ db.artifacts)
unfolding fail_exhausted
fail_exhausted-Cleaned now db d e =
    let a = (audit_exhausted-Audited now _ _).at tt d e in
    (
      rw (ap (λ x. x.tasks) a.tables) (rewrite-Cleaned now db.tasks),
      ap (λ x. x.sessions) a.tables,
      ap (λ x. x.idempotency) a.tables,
      ap (λ x. x.artifacts) a.tables,
    )
