-- ===== src/Task/Steps.antt =====
-- task-core/src/task-state.ts: `applyTaskTransition` and the relation.
use surfgate.Common.{
  ◌≤◌, ◌<◌, ◌≡◌, refl, subst, ◌↔◌, inl, inr, true, false, Option, none, some, arith, Result, ok,
  err, leb→le,
}
use surfgate.Contracts.Tasks.{
  ManagedTaskType, TaskResult, TaskFailureCode, Timestamp, TaskStatus, queued, running,
  retry_pending, succeeded, failed, cancelled, task_type_eq, result_type, request_type, is_result,
}
use surfgate.Contracts.Text.{Text}
use surfgate.Task.Record.{TaskRecord, is_claim_token, is_running, is_terminal, max_safe_integer}
use surfgate.Task.Transition.{
  TransitionEvent, claim, reclaim, succeed, schedule_retry, fail, cancel, event_at, is_event,
  TaskError, invalid_state, bump_version, leased, as_cancelled, as_succeeded, as_retry_pending,
  as_failed, can_claim, can_reclaim, next, take_lease, dispatch, apply_task_transition,
}
use surfgate.Task.Invariant.{
  Inv, parse_task-Inv, leased-Inv, as_cancelled-Inv, as_succeeded-Inv, as_retry_pending-Inv,
  as_failed-Inv,
}
use surfgate.Task.Step.{IsDue, IsAbandoned, Step, start, take_over, finish, postpone, give_up, stop}

next-Inv : (t : TaskRecord) → Inv (bump_version t) → next t ≡ ok (bump_version t)
unfolding next
next-Inv t v = rw (parse_task-Inv _ v)

pub task_type_eq_iff : (a b : ManagedTaskType) → (task_type_eq a b ≡ true) ↔ (a ≡ b)
task_type_eq_iff a b = ground arith

-- The tests of the code against the conditions of the relation.
can_claim-IsDue :
    (t : TaskRecord) (at : Timestamp) → can_claim t.status t.next_attempt_at at ≡ true → IsDue t at
can_claim-IsDue t at h = due t.status t.next_attempt_at refl refl h
  where
    due :
        (s : TaskStatus) (n : Option Timestamp)
        → t.status ≡ s
        → t.next_attempt_at ≡ n
        → can_claim s n at ≡ true
        → IsDue t at
    due queued n p q e = inl p
    due retry_pending (some k) p q e = inr (p, (k, q, leb→le k at e))
    due retry_pending none p q e = cc
    due running n p q e = cc
    due succeeded n p q e = cc
    due failed n p q e = cc
    due cancelled n p q e = cc

can_reclaim-IsAbandoned :
    (t : TaskRecord) (at : Timestamp)
    → can_reclaim t.status t.lease_expires_at at ≡ true
    → IsAbandoned t at
can_reclaim-IsAbandoned t at h = lost t.status t.lease_expires_at refl refl h
  where
    lost :
        (s : TaskStatus) (n : Option Timestamp)
        → t.status ≡ s
        → t.lease_expires_at ≡ n
        → can_reclaim s n at ≡ true
        → IsAbandoned t at
    lost running (some k) p q e = (p, (k, q, leb→le k at e))
    lost running none p q e = cc
    lost queued n p q e = cc
    lost retry_pending n p q e = cc
    lost succeeded n p q e = cc
    lost failed n p q e = cc
    lost cancelled n p q e = cc

is_running-eq : (s : TaskStatus) → is_running s ≡ true → s ≡ running
is_running-eq s h = ground arith

module _ (t : TaskRecord) (v : Inv t) (small : t.version < max_safe_integer) where
  next-leased :
      (at : Timestamp) (token : Text) (lease : Timestamp)
      → is_terminal t.status ≡ false
      → t.attempt_count < t.max_attempts
      → is_claim_token token ≡ true
      → next (leased t at token lease) ≡ ok (bump_version (leased t at token lease))
  next-leased at token lease live room valid =
      next-Inv _ (leased-Inv t v small live at token lease room valid)

  next-as_cancelled :
      (at : Timestamp)
      → is_terminal t.status ≡ false
      → next (as_cancelled t at) ≡ ok (bump_version (as_cancelled t at))
  next-as_cancelled at live = next-Inv _ (as_cancelled-Inv t v small live at)

  next-as_succeeded :
      (at : Timestamp) (r : TaskResult)
      → is_running t.status ≡ true
      → is_result r ≡ true
      → task_type_eq (result_type r) (request_type t.request) ≡ true
      → next (as_succeeded t at r) ≡ ok (bump_version (as_succeeded t at r))
  next-as_succeeded at r busy valid same =
      next-Inv _ (as_succeeded-Inv t v small (ground arith) busy at r valid same)

  next-as_retry_pending :
      (at retry_at : Timestamp)
      → is_running t.status ≡ true
      → next (as_retry_pending t at retry_at) ≡ ok (bump_version (as_retry_pending t at retry_at))
  next-as_retry_pending at retry_at busy =
      next-Inv _ (as_retry_pending-Inv t v small (ground arith) busy at retry_at)

  next-as_failed :
      (at : Timestamp) (code : TaskFailureCode)
      → is_running t.status ≡ true
      → next (as_failed t at code) ≡ ok (bump_version (as_failed t at code))
  next-as_failed at code busy = next-Inv _ (as_failed-Inv t v small (ground arith) busy at code)

  -- Every step of the relation is taken.
  pub Step-apply :
      (e : TransitionEvent) (u : TaskRecord)
      → is_event e ≡ true
      → t.updated_at ≤ event_at e
      → Step t e u
      → apply_task_transition t e ≡ ok u
  unfolding apply_task_transition dispatch take_lease is_event
  Step-apply _ _ valid later (start at token lease due room ahead) =
      ground (arith, parse_task-Inv t v, next-leased at token lease)
  Step-apply _ _ valid later (take_over at token lease due room ahead) =
      ground (arith, parse_task-Inv t v, next-leased at token lease)
  Step-apply _ _ valid later (finish at r busy same) = ground (
    arith,
    parse_task-Inv t v,
    task_type_eq_iff (result_type r) (request_type t.request),
    next-as_succeeded at r,
  )
  Step-apply _ _ valid later (postpone at retry_at code busy room ahead) =
      ground (arith, parse_task-Inv t v, next-as_retry_pending at retry_at)
  Step-apply _ _ valid later (give_up at code busy) =
      ground (arith, parse_task-Inv t v, next-as_failed at code)
  Step-apply _ _ valid later (stop at live) =
      ground (arith, parse_task-Inv t v, next-as_cancelled at)

  -- What a call that succeeds has checked, and what it answers.
  abbrev Checked : TransitionEvent → TaskRecord → Type 0
  Checked (claim at token lease) u =
      (can_claim t.status t.next_attempt_at at ≡ true)
      × (t.attempt_count < t.max_attempts)
      × (at < lease)
      × (bump_version (leased t at token lease) ≡ u)
  Checked (reclaim at token lease) u =
      (can_reclaim t.status t.lease_expires_at at ≡ true)
      × (t.attempt_count < t.max_attempts)
      × (at < lease)
      × (bump_version (leased t at token lease) ≡ u)
  Checked (succeed at r) u =
      (is_running t.status ≡ true)
      × (task_type_eq (result_type r) (request_type t.request) ≡ true)
      × (bump_version (as_succeeded t at r) ≡ u)
  Checked (schedule_retry at retry_at code) u =
      (is_running t.status ≡ true)
      × (t.attempt_count < t.max_attempts)
      × (at < retry_at)
      × (bump_version (as_retry_pending t at retry_at) ≡ u)
  Checked (fail at code) u = (is_running t.status ≡ true) × (bump_version (as_failed t at code) ≡ u)
  Checked (cancel at) u = (is_terminal t.status ≡ false) × (bump_version (as_cancelled t at) ≡ u)

  abbrev Outcome : TransitionEvent → Result TaskError TaskRecord → Type 0
  Outcome e (ok u) = Checked e u × (t.updated_at ≤ event_at e)
  Outcome e (err x) = x ≡ invalid_state

  apply-Outcome : (e : TransitionEvent) → is_event e ≡ true → Outcome e (apply_task_transition t e)
  unfolding apply_task_transition dispatch take_lease is_event
  apply-Outcome (claim at token lease) valid =
      ground (arith, parse_task-Inv t v, next-leased at token lease)
  apply-Outcome (reclaim at token lease) valid =
      ground (arith, parse_task-Inv t v, next-leased at token lease)
  apply-Outcome (succeed at r) valid = ground (arith, parse_task-Inv t v, next-as_succeeded at r)
  apply-Outcome (schedule_retry at retry_at code) valid =
      ground (arith, parse_task-Inv t v, next-as_retry_pending at retry_at)
  apply-Outcome (fail at code) valid = ground (arith, parse_task-Inv t v, next-as_failed at code)
  apply-Outcome (cancel at) valid = ground (arith, parse_task-Inv t v, next-as_cancelled at)

  Checked-Step : (e : TransitionEvent) (u : TaskRecord) → Checked e u → Step t e u
  Checked-Step (claim at token lease) u (due, room, ahead, p) =
      subst (Step t (claim at token lease)) p
        (start at token lease (can_claim-IsDue t at due) room ahead)
  Checked-Step (reclaim at token lease) u (lost, room, ahead, p) =
      subst (Step t (reclaim at token lease)) p
        (take_over at token lease (can_reclaim-IsAbandoned t at lost) room ahead)
  Checked-Step (succeed at r) u (busy, same, p) =
      subst (Step t (succeed at r)) p
        (finish at r (is_running-eq _ busy) ((task_type_eq_iff _ _).0 same))
  Checked-Step (schedule_retry at retry_at code) u (busy, room, ahead, p) =
      subst (Step t (schedule_retry at retry_at code)) p
        (postpone at retry_at code (is_running-eq _ busy) room ahead)
  Checked-Step (fail at code) u (busy, p) =
      subst (Step t (fail at code)) p (give_up at code (is_running-eq _ busy))
  Checked-Step (cancel at) u (live, p) = subst (Step t (cancel at)) p (stop at live)

  apply-Step :
      (e : TransitionEvent) (u : TaskRecord)
      → is_event e ≡ true
      → apply_task_transition t e ≡ ok u
      → Step t e u × (t.updated_at ≤ event_at e)
  apply-Step e u valid h =
      let (checked, later) = subst (Outcome e) h (apply-Outcome e valid) in
      (Checked-Step e u checked, later)

  -- On a stored task whose version can still grow, `applyTaskTransition` answers `u` for a
  -- well-formed event exactly when the relation has a step to `u` and the event is not older
  -- than the task.
  pub apply_task_transition-Step :
      (e : TransitionEvent) (u : TaskRecord)
      → is_event e ≡ true
      → (apply_task_transition t e ≡ ok u) ↔ (Step t e u × (t.updated_at ≤ event_at e))
  apply_task_transition-Step e u valid =
      (apply-Step e u valid, λ (s, later). Step-apply e u valid later s)

  -- On such a task a well-formed event is never lost to a schema: every refusal is a
  -- `TaskTransitionError`.
  pub task_refusal :
      (e : TransitionEvent) (x : TaskError)
      → is_event e ≡ true
      → apply_task_transition t e ≡ err x
      → x ≡ invalid_state
  task_refusal e x valid h = subst (Outcome e) h (apply-Outcome e valid)
