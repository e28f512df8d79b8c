-- ===== src/TaskStore/Changed.antt =====
-- task-postgres/src/repository.ts: the row that a transition changes on sound tables.
use surfgate.Common.{
  ℕ, ◌≡◌, refl, ◌∙◌, ap, Bool, true, ◌==◌, ==-iff, Option, none, some, List, [], ◌∷◌, ◌++◌, ok,
  arith, nat_eq, nat_eq_iff, ◌&&◌,
}
use surfgate.Common.Rows.{first_row-Forall, every_Forall, rewrite_one-split}
use surfgate.Contracts.Text.{Text, text_eq}
use surfgate.Contracts.Tasks.{Timestamp}
use surfgate.Task.Record.{TaskRecord}
use surfgate.Task.Transition.{TransitionEvent, apply_task_transition}
use surfgate.TaskStore.Transaction.{Database, AuditEvent}
use surfgate.TaskStore.Change.{
  TransitionInput, persisted_event, holds_token, unchanged, set_columns, write_transition,
}
use surfgate.TaskStore.Sound.{Apart, Sound, only}
use surfgate.TaskStore.Effects.{write_transition-Written, SameBut, parsed-SameBut}

-- A row with the state of one task and the identity of another.
pub record Stamped (next row new : TaskRecord) : Type 0 where
  pub status : new.status ≡ next.status
  pub attempt_count : new.attempt_count ≡ next.attempt_count
  pub result : new.result ≡ next.result
  pub failure_code : new.failure_code ≡ next.failure_code
  pub updated_at : new.updated_at ≡ next.updated_at
  pub started_at : new.started_at ≡ next.started_at
  pub completed_at : new.completed_at ≡ next.completed_at
  pub failed_at : new.failed_at ≡ next.failed_at
  pub next_attempt_at : new.next_attempt_at ≡ next.next_attempt_at
  pub claim_token : new.claim_token ≡ next.claim_token
  pub lease_expires_at : new.lease_expires_at ≡ next.lease_expires_at
  pub version : new.version ≡ next.version
  pub keys : (new.id ≡ row.id) × (new.tenant_id ≡ row.tenant_id) × (new.session_id ≡ row.session_id)
  pub asked :
      (new.request ≡ row.request)
      × (new.max_attempts ≡ row.max_attempts)
      × (new.created_at ≡ row.created_at)
      × (new.trace_parent ≡ row.trace_parent)

set_columns-Stamped : (next row : TaskRecord) → Stamped next row (set_columns next row)
set_columns-Stamped next row = record {
  status = refl;
  attempt_count = refl;
  result = refl;
  failure_code = refl;
  updated_at = refl;
  started_at = refl;
  completed_at = refl;
  failed_at = refl;
  next_attempt_at = refl;
  claim_token = refl;
  lease_expires_at = refl;
  version = refl;
  keys = (refl, refl, refl);
  asked = (refl, refl, refl, refl);
}

-- What a transition that commits has compared, and the one row that it has changed.
pub record Changed (i : TransitionInput) (current : TaskRecord) (at : Timestamp) (db : Database)
    (t : TaskRecord) (d : Database) : Type 0 where
  pub expected : current.version ≡ i.expected_version
  pub event : TransitionEvent
  pub next : TaskRecord
  pub requested : persisted_event i.event at ≡ ok event
  pub allowed : apply_task_transition current event ≡ ok next
  pub before : List TaskRecord
  pub row : TaskRecord
  pub new : TaskRecord
  pub after : List TaskRecord
  pub were : db.tasks ≡ before ++ row ∷ after
  pub are : d.tasks ≡ before ++ new ∷ after
  pub named : (row.tenant_id ≡ i.tenant_id) × (row.id ≡ i.task_id)
  pub unread : row.version ≡ i.expected_version
  pub token :
      (x : Text)
      → i.expected_claim_token ≡ some x
      → (current.claim_token ≡ some x) × (row.claim_token ≡ some x)
  pub stamped : Stamped next row new
  pub answered : SameBut new t
  pub others :
      (d.sessions ≡ db.sessions) × (d.idempotency ≡ db.idempotency) × (d.artifacts ≡ db.artifacts)
  pub logged : (e : AuditEvent) × (d.audit ≡ db.audit ++ e ∷ [])

held_token :
    (expected held : Option Text) (x : Text)
    → holds_token expected held ≡ true
    → expected ≡ some x
    → held ≡ some x
held_token none held x h e = cc
held_token (some y) none x h e = cc
held_token (some y) (some z) x h e = ap (λ v. some v) ((==-iff z y).0 h) ∙ e

-- What the condition of the statement says of a row.
matched :
    (tenant id : Text) (version : ℕ) (token : Option Text) (t : TaskRecord)
    → unchanged tenant id version token t ≡ true
    → (t.tenant_id ≡ tenant)
      × (t.id ≡ id)
      × (t.version ≡ version)
      × (holds_token token t.claim_token ≡ true)
matched tenant id version token t h =
    let parts =
      split (t.tenant_id == tenant) (t.id == id) (nat_eq t.version version)
        (holds_token token t.claim_token) h in
    (
      (==-iff t.tenant_id tenant).0 parts.0,
      (==-iff t.id id).0 parts.1,
      (nat_eq_iff t.version version).0 parts.2,
      parts.3,
    )
  where
    split :
        (a b c e : Bool)
        → ((a && b) && c && e) ≡ true
        → (a ≡ true) × (b ≡ true) × (c ≡ true) × (e ≡ true)
    split a b c e h = ground arith

-- On sound tables, a transition that commits has found the expected version, and the claim token
-- where one is expected, in what it has read and in the row of that tenant and identifier; it has
-- put the state of the task that applyTaskTransition answers into that row, keeping the rest of
-- it, and answers that row. It adds one audit event, and all else stays as it is.
pub write_transition-Changed :
    (i : TransitionInput) (current : TaskRecord) (at : Timestamp) (db d : Database) (t : TaskRecord)
    → Sound db
    → write_transition i current at db ≡ ok (t, d)
    → Changed i current at db t d
write_transition-Changed i current at db d t s h =
    let w = (write_transition-Written i current at db).at t d h in
    let p : TaskRecord → Bool =
      unchanged i.tenant_id i.task_id current.version i.expected_claim_token in
    let fits : p w.row ≡ true =
      (first_row-Forall (λ u. Unit {0}) p db.tasks w.row (every_Forall _ db.tasks (λ u. tt))
        w.found).1 in
    let m = matched i.tenant_id i.task_id current.version i.expected_claim_token in
    let (before, after, were, are) =
      rewrite_one-split p (set_columns w.next) Apart
        (only p (set_columns w.next) i.task_id (λ u k. (m u k).1) (λ u. (refl, refl, refl)))
        db.tasks w.row s.apart w.found in
    let row = m w.row fits in
    record {
      expected = w.expected;
      event = w.event;
      next = w.next;
      requested = w.requested;
      allowed = w.allowed;
      before = before;
      row = w.row;
      new = set_columns w.next w.row;
      after = after;
      were = were;
      are = w.tasks ∙ are;
      named = (row.0, row.1);
      unread = row.2 ∙ w.expected;
      token = λ x e. (
        held_token i.expected_claim_token current.claim_token x w.held e,
        held_token i.expected_claim_token w.row.claim_token x row.3 e,
      );
      stamped = set_columns-Stamped w.next w.row;
      answered = parsed-SameBut (set_columns w.next w.row) t w.answered;
      others = w.others;
      logged = w.logged;
    }
