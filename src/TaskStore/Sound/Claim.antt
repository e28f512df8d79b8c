-- ===== src/TaskStore/Sound/Claim.antt =====
-- task-postgres/src/repository.ts: the invariant under `claimNext`.
use surfgate.Common.{
  ◌≡◌, refl, sym, subst, ◌∙◌, Bool, true, false, ◌&&◌, ==-iff, Option, none, some, List, [], ◌∷◌,
  Result, ok, err, arith, leb,
}
use surfgate.Common.Rows.{
  Forall, Forall-mono, any-rewrite, rewrite, rewrite_all-Forall, returned-Forall, rewrite-Pairwise,
}
use surfgate.Common.Sorting.{sort_by}
use surfgate.Common.Sorted.{first_of}
use surfgate.Contracts.Text.{Text, text_eq}
use surfgate.Contracts.Tasks.{Timestamp}
use surfgate.Task.Record.{TaskRecord, is_running}
use surfgate.Task.Transition.{apply_task_transition}
use surfgate.TaskStore.Transaction.{
  Database, AuditEvent, StoreError, one_running_per_session, Ensures, Ensures-answer, Ensures-bind,
  Ensures-lift, Ensures-modify, Ensures-if, Ensures-throw_unless, committed, answer,
}
use surfgate.TaskStore.Database.{same_session, update_row, task_from_row, owns, append_task_audit}
use surfgate.TaskStore.Create.{refers_to}
use surfgate.TaskStore.Claim.{
  ClaimInput, is_exhausted, give_up, audit_exhausted, fail_exhausted, is_occupied, running_count,
  claim_order, candidates, claimable_rows, set_leased, has_version, started, lease_task,
  unless_occupied, pick, claim_of_tenant, of_tenant, choose, claim_transaction, or_none, or_null,
  claim_next, lease_event,
}
use surfgate.TaskStore.Sound.{
  Stored, Apart, Sound, Updated, IsSound, audited_Sound, parsed-Stored, update_row-Sound,
}

-- The audit of the exhausted tasks reads every row.
pub record Audited (rows : List TaskRecord) (db d : Database) : Type 0 where
  pub read : Forall Stored rows
  pub events : List AuditEvent
  pub tables : d ≡ record db { audit = events }

pub audit_exhausted-Audited :
    (now : Timestamp) (rows : List TaskRecord) (db : Database)
    → Ensures (λ u d. Audited rows db d) (audit_exhausted now rows) db
unfolding audit_exhausted task_from_row append_task_audit
audit_exhausted-Audited now [] db =
    Ensures-answer _ _ db (record { read = tt; events = db.audit; tables = refl })
audit_exhausted-Audited now (row ∷ rows) db = Ensures-lift _ _ _ db λ task e.
    Ensures-modify _ db _ _ (record {
      at = λ u d h.
          let rest = (audit_exhausted-Audited now rows _).at u d h in
          record {
            read = (parsed-Stored row task e, rest.read);
            events = rest.events;
            tables = rest.tables;
          };
    })

-- A task that is given up does not run.
stopped_Apart : (now : Timestamp) (t u : TaskRecord) → Apart t u → Apart (give_up now t) u
stopped_Apart now t u h = (h.0, refl)

stopped_Apart_right : (now : Timestamp) (t u : TaskRecord) → Apart t u → Apart t (give_up now u)
stopped_Apart_right now t u h = (h.0, idle (is_running t.status) (same_session t u))
  where
    idle : (a b : Bool) → (a && false && b) ≡ false
    idle a b = ground arith

pub fail_exhausted-Sound :
    (now : Timestamp) (db : Database) → Sound db → Ensures IsSound (fail_exhausted now) db
unfolding fail_exhausted
fail_exhausted-Sound now db s = record {
  at = λ u d h.
      let rest = (audit_exhausted-Audited now _ _).at u d h in
      subst Sound (sym rest.tables) (
        audited_Sound (record db { tasks = rewrite (is_exhausted now) (give_up now) db.tasks }) _
          (record {
            stored =
                rewrite_all-Forall _ _ Stored db.tasks
                  (returned-Forall _ _ Stored db.tasks rest.read) s.stored;
            apart =
                rewrite-Pairwise _ _ Apart db.tasks (λ t u e k. stopped_Apart now t u k)
                  (λ t u e k. stopped_Apart_right now t u k) s.apart;
            named = s.named;
            referenced =
                Forall-mono db.idempotency
                  (λ r k. any-rewrite _ _ (refers_to r) db.tasks (λ t. refl) ∙ k) s.referenced;
            one_artifact = s.one_artifact;
            owned =
                Forall-mono db.artifacts (λ a k. any-rewrite _ _ (owns a) db.tasks (λ t. refl) ∙ k)
                  s.owned;
          }));
}

started-Sound :
    (now : Timestamp) (rows : Option TaskRecord) (db : Database)
    → Updated rows db
    → Ensures IsSound (started now rows) db
unfolding started task_from_row append_task_audit
started-Sound now none db h = Ensures-answer _ _ db h
started-Sound now (some row) db h = Ensures-lift _ _ _ db λ task e.
    Ensures-modify _ db _ _
      (Ensures-answer _ _ _ (audited_Sound db _ (h (parsed-Stored row task e))))

pub has_version-id : (task t : TaskRecord) → has_version task t ≡ true → t.id ≡ task.id
has_version-id task t h = (==-iff t.id task.id).0 (ground arith)

lease_task-Sound :
    (i : ClaimInput) (now : Timestamp) (task : TaskRecord) (db : Database)
    → Sound db
    → Ensures IsSound (lease_task i now task) db
unfolding lease_task
lease_task-Sound i now task db s =
    Ensures-lift _ (apply_task_transition task (lease_event i now task)) _ db λ next e.
      Ensures-bind _ Updated (update_row _ _) _ db
        (update_row-Sound (has_version task) (set_leased next) task.id (has_version-id task)
          (λ t. (refl, refl, refl)) db s)
        (λ rows d h. started-Sound now rows d h)

pick-Sound :
    (i : ClaimInput) (now : Timestamp) (o : Option TaskRecord) (db : Database)
    → Sound db
    → Ensures IsSound (pick i now o) db
unfolding pick task_from_row unless_occupied
pick-Sound i now none db s = Ensures-answer _ _ db s
pick-Sound i now (some row) db s = Ensures-lift _ _ _ db λ task e. record {
  at =
      (Ensures-if IsSound db (answer none) (λ d. is_occupied now task d.tasks)
        (lease_task i now task) (λ busy. Ensures-answer _ none db s)
        (λ idle. lease_task-Sound i now task db s)).at;
}

pub claim_of_tenant-Sound :
    (i : ClaimInput) (now : Timestamp) (locked : Text → Bool) (tenant : Text) (db : Database)
    → Sound db
    → Ensures IsSound (claim_of_tenant i now locked tenant) db
unfolding claim_of_tenant
claim_of_tenant-Sound i now locked tenant db s = record {
  at =
      (Ensures-if IsSound db (answer none)
        (λ d. leb i.max_running_per_tenant (running_count tenant now d.tasks))
        (λ d.
          pick i now (first_of (sort_by claim_order (claimable_rows tenant locked now d.tasks))) d)
        (λ full. Ensures-answer _ none db s)
        (λ room. record { at = (pick-Sound i now _ db s).at })).at;
}

of_tenant-Sound :
    (i : ClaimInput) (now : Timestamp) (locked : Text → Bool) (o : Option TaskRecord)
    (db : Database)
    → Sound db
    → Ensures IsSound (of_tenant i now locked o) db
unfolding of_tenant
of_tenant-Sound i now locked none db s = Ensures-answer _ _ db s
of_tenant-Sound i now locked (some t) db s = claim_of_tenant-Sound i now locked t.tenant_id db s

claim_transaction-Sound :
    (i : ClaimInput) (now : Timestamp) (locked : Text → Bool) (db : Database)
    → Sound db
    → Ensures IsSound (claim_transaction i now locked) db
unfolding claim_transaction choose
claim_transaction-Sound i now locked db s =
    Ensures-bind _ IsSound (fail_exhausted now) _ db (fail_exhausted-Sound now db s) (λ u d s.
      record {
        at =
            (of_tenant-Sound i now locked
              (first_of (sort_by claim_order (candidates i now d.tasks))) d s).at;
      })

pub claim_next-Sound :
    (i : ClaimInput) (now : Timestamp) (locked : Text → Bool) (db : Database)
    → Sound db
    → Ensures IsSound (claim_next i now locked) db
unfolding claim_next or_null
claim_next-Sound i now locked db s = Ensures-throw_unless _ db _ _ _ λ e. record {
  at = caught (claim_transaction i now locked db) (claim_transaction-Sound i now locked db s).at;
}
  where
    caught :
        (r : Result StoreError (Option TaskRecord × Database))
        → ((o : Option TaskRecord) (d : Database) → r ≡ ok (o, d) → Sound d)
        → (o : Option TaskRecord) (d : Database) → or_none db r ≡ ok (o, d)
        → Sound d
    caught (err one_running_per_session) k o d h = committed IsSound none db o d s h
    caught (ok r) k o d h = k o d h
    caught (err x) k o d h = cc
