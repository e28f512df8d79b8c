-- ===== src/TaskStore/Effects.antt =====
-- task-postgres/src/repository.ts: what an update and a transition that commit have changed.
use surfgate.Common.{
  ◌+◌, ◌≡◌, refl, subst, ◌∙◌, ap, inl, inr, Bool, true, false, Option, none, some, List, [], ◌∷◌,
  ◌++◌, ok, arith, Option-cases, nat_eq, nat_eq_iff, &&-left, &&-right, if◌then◌else◌,
}
use surfgate.Common.Rows.{first_row, rewrite}
use surfgate.Contracts.Text.{Text, text_eq}
use surfgate.Contracts.Tasks.{Timestamp, TaskRequest, parse_request}
use surfgate.Task.Record.{TaskRecord, parse_task}
use surfgate.Task.Transition.{
  TransitionEvent, claim, reclaim, succeed, schedule_retry, fail, cancel, parsed, next,
  bump_version, can_claim, can_reclaim, leased, as_succeeded, as_retry_pending, as_failed,
  as_cancelled, take_lease, dispatch, apply_task_transition,
}
use surfgate.TaskStore.Transaction.{
  Database, AuditEvent, Ensures, Ensures-answer, Ensures-bind, Ensures-lift, Ensures-throw_unless,
  Ensures-check, Ensures-modify,
}
use surfgate.TaskStore.Database.{write_row, update_row, append_task_audit}
use surfgate.TaskStore.Change.{
  TransitionInput, persisted_event, holds_token, unchanged, set_columns, required, write_transition,
}

-- Parsing changes only the request of a task.
abbrev pub SameBut : TaskRecord → TaskRecord → Type 0
SameBut t u = (r : TaskRequest) × (u ≡ record t { request = r })

parse_task-SameBut : (t u : TaskRecord) → parse_task t ≡ some u → SameBut t u
unfolding parse_task
parse_task-SameBut t u h = elim (Option-cases (parse_request t.request)) [
  | inl n ↦ absurd (ground (arith, n))
  | inr (r, k) ↦ (r, ground (arith, k))
]

pub parsed-SameBut : (t u : TaskRecord) → parsed (parse_task t) ≡ ok u → SameBut t u
parsed-SameBut t u h = elim (Option-cases (parse_task t)) [
  | inl n ↦ absurd (ground (arith, n))
  | inr (v, k) ↦ parse_task-SameBut t u (k ∙ ap (λ x. some x) (ground (arith, k)))
]

parse_task-version : (t u : TaskRecord) → parse_task t ≡ some u → u.version ≡ t.version
parse_task-version t u h = ap (λ v. v.version) (parse_task-SameBut t u h).1

parsed-version : (t u : TaskRecord) → parsed (parse_task t) ≡ ok u → u.version ≡ t.version
parsed-version t u h = ap (λ v. v.version) (parsed-SameBut t u h).1

next-version : (t u : TaskRecord) → next t ≡ ok u → u.version ≡ t.version + 1
unfolding next
next-version t u h = parsed-version (bump_version t) u h

dispatch-version :
    (t u : TaskRecord) (e : TransitionEvent) → dispatch t e ≡ ok u → u.version ≡ t.version + 1
unfolding dispatch take_lease
dispatch-version t u (claim at token lease) h =
    ground (arith, next-version (leased t at token lease) u)
dispatch-version t u (reclaim at token lease) h =
    ground (arith, next-version (leased t at token lease) u)
dispatch-version t u (succeed at r) h = ground (arith, next-version (as_succeeded t at r) u)
dispatch-version t u (schedule_retry at n code) h =
    ground (arith, next-version (as_retry_pending t at n) u)
dispatch-version t u (fail at code) h = ground (arith, next-version (as_failed t at code) u)
dispatch-version t u (cancel at) h = next-version (as_cancelled t at) u h

-- A transition counts the version up, whatever the record that it starts from.
pub apply_task_transition-version :
    (t u : TaskRecord) (e : TransitionEvent)
    → apply_task_transition t e ≡ ok u
    → u.version ≡ t.version + 1
unfolding apply_task_transition
apply_task_transition-version t u e h = elim (Option-cases (parse_task t)) [
  | inl n ↦ absurd (ground (arith, n))
  | inr (r, k) ↦
      let same = parse_task-version t r k in ground (arith, k, same, dispatch-version r u e)
]

take_lease-next :
    (t u : TaskRecord) (b : Bool) (at : Timestamp) (token : Text) (lease : Timestamp)
    → take_lease t b at token lease ≡ ok u
    → parsed (parse_task (bump_version (leased t at token lease))) ≡ ok u
unfolding take_lease next
take_lease-next t u b at token lease h = ground arith

-- A lease makes of a task what `leased` says, up to the parsing of its request.
pub lease_granted :
    (t u : TaskRecord) (b : Bool) (at : Timestamp) (token : Text) (lease : Timestamp)
    → apply_task_transition t (if b then reclaim at token lease else claim at token lease) ≡ ok u
    → (v : TaskRecord) × SameBut t v × SameBut (bump_version (leased v at token lease)) u
unfolding apply_task_transition dispatch
lease_granted t u b at token lease h = elim (Option-cases (parse_task t)) [
  | inl n ↦ absurd (ground (arith, n))
  | inr (v, k) ↦ (
    v,
    parse_task-SameBut t v k,
    parsed-SameBut _ u (take_lease-next v u (claimable b v) at token lease (granted b v k h)),
  )
]
  where
    claimable : Bool → TaskRecord → Bool
    claimable true v = can_reclaim v.status v.lease_expires_at at
    claimable false v = can_claim v.status v.next_attempt_at at

    granted :
        (b : Bool) (v : TaskRecord)
        → parse_task t ≡ some v
        → apply_task_transition t (if b then reclaim at token lease else claim at token lease)
          ≡ ok u
        → take_lease v (claimable b v) at token lease ≡ ok u
    granted true v k h = ground (arith, k)
    granted false v k h = ground (arith, k)

-- The row that an update has found, and the tables with that row changed.
pub record Rewrote (p : TaskRecord → Bool) (f : TaskRecord → TaskRecord) (db : Database)
    (u : TaskRecord) (d : Database) : Type 0 where
  pub row : TaskRecord
  pub found : first_row p db.tasks ≡ some row
  pub returned : u ≡ f row
  pub tables : d ≡ record db { tasks = rewrite p f db.tasks }

abbrev pub Effect :
    (TaskRecord → Bool)
    → (TaskRecord → TaskRecord)
    → Database
    → Option TaskRecord
    → Database
    → Type 0
Effect p f db none d = (d ≡ db) × (first_row p db.tasks ≡ none)
Effect p f db (some u) d = Rewrote p f db u d

pub update_row-Effect :
    (p : TaskRecord → Bool) (f : TaskRecord → TaskRecord) (db : Database)
    → Ensures (Effect p f db) (update_row p f) db
unfolding update_row write_row
update_row-Effect p f db = record { at = (looked (first_row p db.tasks) refl).at }
  where
    looked :
        (o : Option TaskRecord)
        → first_row p db.tasks ≡ o
        → Ensures (Effect p f db) (write_row p f o) db
    looked none e = Ensures-answer _ none db (refl, e)
    looked (some row) e = Ensures-check _ db _ _ _ λ free. Ensures-modify _ db _ _ (
        Ensures-answer _ (some (f row)) _
          (record { row = row; found = e; returned = refl; tables = refl }))

pub required-Rewrote :
    (p : TaskRecord → Bool) (f : TaskRecord → TaskRecord) (db d : Database)
    (rows : Option TaskRecord) (u : TaskRecord)
    → Effect p f db rows d
    → required rows ≡ ok u
    → Rewrote p f db u d
required-Rewrote p f db d none u h e = cc
required-Rewrote p f db d (some v) u h e =
    let same : v ≡ u = ground arith in subst (λ x. Rewrote p f db x d) same h

-- What a transition that commits has checked, and what it has written.
pub record Written (i : TransitionInput) (current : TaskRecord) (at : Timestamp) (db : Database)
    (t : TaskRecord) (d : Database) : Type 0 where
  pub expected : current.version ≡ i.expected_version
  pub held : holds_token i.expected_claim_token current.claim_token ≡ true
  pub event : TransitionEvent
  pub next : TaskRecord
  pub row : TaskRecord
  pub requested : persisted_event i.event at ≡ ok event
  pub allowed : apply_task_transition current event ≡ ok next
  pub found :
      first_row (unchanged i.tenant_id i.task_id current.version i.expected_claim_token) db.tasks
      ≡ some row
  pub answered : parsed (parse_task (set_columns next row)) ≡ ok t
  pub tasks :
      d.tasks
      ≡ rewrite
          (unchanged i.tenant_id i.task_id current.version i.expected_claim_token)
          (set_columns next)
          db.tasks
  pub others :
      (d.sessions ≡ db.sessions) × (d.idempotency ≡ db.idempotency) × (d.artifacts ≡ db.artifacts)
  pub logged : (e : AuditEvent) × (d.audit ≡ db.audit ++ e ∷ [])

one_more :
    {a b : List AuditEvent} (e : AuditEvent)
    → a ≡ b
    → (f : AuditEvent) × (a ++ e ∷ [] ≡ b ++ f ∷ [])
one_more e h = (e, ap (λ l. l ++ e ∷ []) h)

-- A transition that commits has found the expected version and claim token in what it has read
-- and in the table, and writes the columns of the next record to that row alone.
pub write_transition-Written :
    (i : TransitionInput) (current : TaskRecord) (at : Timestamp) (db : Database)
    → Ensures (Written i current at db) (write_transition i current at) db
unfolding write_transition append_task_audit
write_transition-Written i current at db = Ensures-throw_unless _ db _ _ _ λ same.
    Ensures-lift _ (persisted_event i.event at) _ db λ event e1.
      Ensures-lift _ (apply_task_transition current event) _ db λ next e2.
        Ensures-bind _ (Effect _ (set_columns next) db) (update_row _ _) _ db
          (update_row-Effect _ (set_columns next) db)
          (λ rows d h. Ensures-lift _ (required rows) _ d λ row e3.
            Ensures-lift _ (parsed (parse_task row)) _ d λ t e4. Ensures-modify _ d _ _ (
              Ensures-answer _ t _ (
                let k = required-Rewrote _ (set_columns next) db d rows row h e3 in
                record {
                  expected = (nat_eq_iff _ _).0 (&&-left _ _ same);
                  held = &&-right (nat_eq current.version i.expected_version) _ same;
                  event = event;
                  next = next;
                  row = k.row;
                  requested = e1;
                  allowed = e2;
                  found = k.found;
                  answered = subst (λ x. parsed (parse_task x) ≡ ok t) k.returned e4;
                  tasks = ap (λ x. x.tasks) k.tables;
                  others = (
                    ap (λ x. x.sessions) k.tables,
                    ap (λ x. x.idempotency) k.tables,
                    ap (λ x. x.artifacts) k.tables,
                  );
                  logged = one_more _ (ap (λ x. x.audit) k.tables);
                })))
