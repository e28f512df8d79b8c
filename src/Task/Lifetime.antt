-- ===== src/Task/Lifetime.antt =====
-- task-core/src/task-state.ts: any sequence of transitions of a task.
use surfgate.Common.{
  ℕ, ◌+◌, ◌≤◌, ◌<◌, ◌≡◌, true, some, List, [], ◌∷◌, arith, ok, err, AllTrue, passes, passes-AllTrue,
  length,
}
use surfgate.Contracts.Tasks.{Timestamp, running}
use surfgate.Contracts.Text.{Text}
use surfgate.Task.Record.{TaskRecord, field_checks, is_claim_token, parse_task, max_safe_integer}
use surfgate.Task.Transition.{
  TransitionEvent, claim, reclaim, succeed, schedule_retry, fail, cancel, event_at, is_event,
  invalid_state, bump_version, leased, as_cancelled, as_succeeded, as_retry_pending, as_failed,
  next, take_lease, dispatch, apply_task_transition,
}
use surfgate.Task.Invariant.{
  Inv, parse_task-Inv, leased-Inv, as_cancelled-Inv, as_succeeded-Inv, as_retry_pending-Inv,
  as_failed-Inv,
}
use surfgate.Task.Step.{Step, start, take_over, finish, postpone, give_up, stop}
use surfgate.Task.Steps.{task_type_eq_iff, apply_task_transition-Step}

-- A version that could not grow would fail the schema.
parse_task-fields : (t u : TaskRecord) → parse_task t ≡ some u → passes (field_checks t) ≡ true
unfolding parse_task
parse_task-fields t u h = ground arith

next-small : (t u : TaskRecord) → next t ≡ ok u → t.version < max_safe_integer
unfolding next
next-small t u h =
    let valid : AllTrue (field_checks (bump_version t)) =
      passes-AllTrue _ (parse_task-fields (bump_version t) u (ground arith)) in
    ground arith

apply-small :
    (t u : TaskRecord) (e : TransitionEvent)
    → Inv t
    → apply_task_transition t e ≡ ok u
    → (t.version < max_safe_integer) × (is_event e ≡ true)
unfolding apply_task_transition dispatch take_lease
apply-small t u (claim at token lease) v h =
    ground (arith, parse_task-Inv t v, next-small (leased t at token lease) u)
apply-small t u (reclaim at token lease) v h =
    ground (arith, parse_task-Inv t v, next-small (leased t at token lease) u)
apply-small t u (succeed at r) v h =
    ground (arith, parse_task-Inv t v, next-small (as_succeeded t at r) u)
apply-small t u (schedule_retry at n code) v h =
    ground (arith, parse_task-Inv t v, next-small (as_retry_pending t at n) u)
apply-small t u (fail at code) v h =
    ground (arith, parse_task-Inv t v, next-small (as_failed t at code) u)
apply-small t u (cancel at) v h =
    ground (arith, parse_task-Inv t v, next-small (as_cancelled t at) u)

-- A step keeps what holds of a stored task.
Step-Inv :
    (t u : TaskRecord) (e : TransitionEvent)
    → Inv t
    → t.version < max_safe_integer
    → is_event e ≡ true
    → Step t e u
    → Inv u
unfolding is_event
Step-Inv t _ _ v small valid (start at token lease due room ahead) =
    leased-Inv t v small (ground arith) at token lease room valid
Step-Inv t _ _ v small valid (take_over at token lease lost room ahead) =
    leased-Inv t v small (ground arith) at token lease room valid
Step-Inv t _ _ v small valid (finish at r busy same) =
    as_succeeded-Inv t v small (ground arith) (ground arith) at r valid
      ((task_type_eq_iff _ _).1 same)
Step-Inv t _ _ v small valid (postpone at retry_at code busy room ahead) =
    as_retry_pending-Inv t v small (ground arith) (ground arith) at retry_at
Step-Inv t _ _ v small valid (give_up at code busy) =
    as_failed-Inv t v small (ground arith) (ground arith) at code
Step-Inv t _ _ v small valid (stop at live) = as_cancelled-Inv t v small live at

module _ (t u : TaskRecord) (e : TransitionEvent) (v : Inv t)
    (h : apply_task_transition t e ≡ ok u) where
  taken : Step t e u × (t.updated_at ≤ event_at e)
  taken =
      let (small, valid) = apply-small t u e v h in
      (apply_task_transition-Step t v small e u valid).0 h

  -- `applyTaskTransition` keeps what holds of a stored task.
  pub apply-Inv : Inv u
  apply-Inv = let (small, valid) = apply-small t u e v h in Step-Inv t u e v small valid taken.0

-- 1 for an event that starts an attempt.
abbrev pub attempts_of : TransitionEvent → ℕ
attempts_of (claim at token lease) = 1
attempts_of (reclaim at token lease) = 1
attempts_of (succeed at r) = 0
attempts_of (schedule_retry at n code) = 0
attempts_of (fail at code) = 0
attempts_of (cancel at) = 0

-- What a transition leaves alone, and how it counts.
pub record Counts (t u : TaskRecord) (n : ℕ) (at : Timestamp) : Type 0 where
  pub same_task : (u.id ≡ t.id) × (u.tenant_id ≡ t.tenant_id) × (u.session_id ≡ t.session_id)
  pub same_work :
      (u.request ≡ t.request) × (u.max_attempts ≡ t.max_attempts) × (u.created_at ≡ t.created_at)
  pub attempts : u.attempt_count ≡ t.attempt_count + n
  pub versions : u.version ≡ t.version + 1
  pub dated : u.updated_at ≡ at

Step-Counts :
    (t u : TaskRecord) (e : TransitionEvent) → Step t e u → Counts t u (attempts_of e) (event_at e)
Step-Counts t _ _ (start at token lease due room ahead) = ground arith
Step-Counts t _ _ (take_over at token lease lost room ahead) = ground arith
Step-Counts t _ _ (finish at r busy same) = ground arith
Step-Counts t _ _ (postpone at retry_at code busy room ahead) = ground arith
Step-Counts t _ _ (give_up at code busy) = ground arith
Step-Counts t _ _ (stop at live) = ground arith

-- The events that a task has accepted, the latest first.
pub data History (t : TaskRecord) : List TransitionEvent → TaskRecord → Type 0 where
  here : History t [] t
  accepted :
      {es : List TransitionEvent} {u w : TaskRecord} (e : TransitionEvent)
      → History t es u
      → apply_task_transition u e ≡ ok w
      → History t (e ∷ es) w

abbrev pub attempts_in : List TransitionEvent → ℕ
attempts_in [] = 0
attempts_in (e ∷ es) = attempts_of e + attempts_in es

-- Whatever events a stored task accepts, it stays well formed, its version counts them, its
-- attempt count grows by the claims and reclaims among them and stays within `maxAttempts` and
-- within ten, its identity, request and creation do not change, and its update time never
-- goes back.
pub record Accounts (t u : TaskRecord) (es : List TransitionEvent) : Type 0 where
  pub stored : Inv u
  pub versions : u.version ≡ t.version + length es
  pub attempts : u.attempt_count ≡ t.attempt_count + attempts_in es
  pub bounded : (u.attempt_count ≤ t.max_attempts) × (t.max_attempts ≤ 10)
  pub same_work :
      (u.id ≡ t.id)
      × (u.request ≡ t.request)
      × (u.max_attempts ≡ t.max_attempts)
      × (u.created_at ≡ t.created_at)
  pub later : t.updated_at ≤ u.updated_at

pub task-Accounts :
    (t u : TaskRecord) (es : List TransitionEvent) → Inv t → History t es u → Accounts t u es
task-Accounts t _ _ v here = ground arith
task-Accounts t w _ v (accepted {es} {u} e past h) =
    let a : Accounts t u es = task-Accounts t u es v past in
    let (s, later) = taken u w e a.stored h in
    let c : Counts u w (attempts_of e) (event_at e) = Step-Counts u w e s in
    let i : Inv w = apply-Inv u w e a.stored h in ground arith

-- While a lease runs, no worker can claim or reclaim the task.
pub lease_exclusive :
    (t : TaskRecord) (n at : Timestamp) (token : Text) (lease : Timestamp)
    → Inv t
    → t.status ≡ running
    → t.lease_expires_at ≡ some n
    → at < n
    → is_claim_token token ≡ true
    → (apply_task_transition t (claim at token lease) ≡ err invalid_state)
      × (apply_task_transition t (reclaim at token lease) ≡ err invalid_state)
unfolding apply_task_transition dispatch take_lease is_event
lease_exclusive t n at token lease v busy held early valid =
    (ground (arith, parse_task-Inv t v), ground (arith, parse_task-Inv t v))
