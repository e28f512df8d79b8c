-- ===== src/Session/Steps.antt =====
-- domain/session.ts: `applySessionTransition` and the relation.
use surfgate.Common.{
  ◌≤◌, ◌<◌, ◌≡◌, refl, subst, ◌↔◌, ◌⊎◌, inl, inr, true, false, Option, none, some, arith, Result,
  ok, err, all_option, Bool-cases, passes, AllTrue, passes-AllTrue,
}
use surfgate.Contracts.Tasks.{Timestamp}
use surfgate.Contracts.Text.{Text, is_slug, is_reason}
use surfgate.Contracts.Ids.{is_routing_decision_id}
use surfgate.Task.Record.{max_safe_integer}
use surfgate.Session.Record.{
  Session, SessionStatus, pending, routing, allocating, fallback_allocating, active, terminating,
  terminated, expired, failed, is_protected_reference, is_terminal, is_active_lifecycle,
  parse_session, consistency_checks,
}
use surfgate.Session.Transition.{
  SessionEvent, begin_routing, begin_allocation, begin_fallback_allocation, activate,
  retain_for_cleanup, request_termination, complete_termination, expire, fail, event_at, is_event,
  SessionError, invalid_transition, schema_error, bump_version, moved, routed, connected, ended,
  next, apply_request, dispatch, apply_other, apply_event, apply_session_transition,
}
use surfgate.Session.Invariant.{
  Inv, parse_session-Inv, is_allocating, next-Inv, moved-routing-Inv, moved-terminating-Inv,
  routed-Inv, connected-Inv, ended-Inv,
}
use surfgate.Session.Step.{
  IsEnding, Step, IsExpiredOffer, route, allocate, fall_back, connect, retain, ask, ask_again,
  complete, run_out, break_off,
}

-- The schema refuses a connection whose expiry does not follow it.
parse_session-expired :
    (s : Session) (at x : Timestamp)
    → s.connected_at ≡ some at
    → s.expires_at ≡ some x
    → x ≤ at
    → parse_session s ≡ none
unfolding parse_session
parse_session-expired s at x c e over = elim (Bool-cases (passes (consistency_checks s))) [
  | inl fine ↦ let h : AllTrue (consistency_checks s) = passes-AllTrue _ fine in ground arith
  | inr bad ↦ ground arith
]

next-expired :
    (s : Session) (to : SessionStatus) (at x : Timestamp) (r : Text)
    → x ≤ at
    → next (connected s to at x r) ≡ err schema_error
unfolding next
next-expired s to at x r over =
    rw (parse_session-expired (bump_version (connected s to at x r)) at x refl refl over)

module _ (s : Session) (v : Inv s) (small : s.version < max_safe_integer) where
  next-moved-routing :
      (at : Timestamp)
      → s.updated_at ≤ at
      → s.status ≡ pending
      → next (moved s routing at) ≡ ok (bump_version (moved s routing at))
  next-moved-routing at later p = next-Inv _ (moved-routing-Inv s v small at later p)

  next-moved-terminating :
      (at : Timestamp)
      → s.updated_at ≤ at
      → s.status ≡ active
      → next (moved s terminating at) ≡ ok (bump_version (moved s terminating at))
  next-moved-terminating at later p = next-Inv _ (moved-terminating-Inv s v small at later p)

  next-routed :
      (to : SessionStatus) (at : Timestamp) (r p : Text) (d : Option Text)
      → s.updated_at ≤ at
      → is_allocating to ≡ true
      → is_terminal s.status ≡ false
      → is_slug r ≡ true
      → is_slug p ≡ true
      → all_option is_routing_decision_id d ≡ true
      → next (routed s to at r p d) ≡ ok (bump_version (routed s to at r p d))
  next-routed to at r p d later a b c e f =
      next-Inv _ (routed-Inv s v small at later to r p d a b c e f)

  next-connected :
      (to : SessionStatus) (at x : Timestamp) (r : Text)
      → s.updated_at ≤ at
      → (to ≡ active) ⊎ (to ≡ terminating)
      → is_allocating s.status ≡ true
      → at < x
      → is_protected_reference r ≡ true
      → next (connected s to at x r) ≡ ok (bump_version (connected s to at x r))
  next-connected to at x r later a b c d =
      next-Inv _ (connected-Inv s v small at later to x r a b c d)

  next-ended :
      (to : SessionStatus) (at : Timestamp) (r : Text)
      → s.updated_at ≤ at
      → is_terminal to ≡ true
      → (is_active_lifecycle to ≡ true → is_active_lifecycle s.status ≡ true)
      → is_reason r ≡ true
      → next (ended s to at r) ≡ ok (bump_version (ended s to at r))
  next-ended to at r later a b c = next-Inv _ (ended-Inv s v small at later to r a b c)

  next-activated :
      (at x : Timestamp) (r : Text)
      → s.updated_at ≤ at
      → is_allocating s.status ≡ true
      → at < x
      → is_protected_reference r ≡ true
      → next (connected s active at x r) ≡ ok (bump_version (connected s active at x r))
  next-activated at x r later = next-connected active at x r later (inl refl)

  next-retained :
      (at x : Timestamp) (r : Text)
      → s.updated_at ≤ at
      → is_allocating s.status ≡ true
      → at < x
      → is_protected_reference r ≡ true
      → next (connected s terminating at x r) ≡ ok (bump_version (connected s terminating at x r))
  next-retained at x r later = next-connected terminating at x r later (inr refl)

  -- Every step of the relation is taken.
  pub Step-apply :
      (e : SessionEvent) (u : Session)
      → is_event e ≡ true
      → Step s e u
      → apply_session_transition s e ≡ ok u
  unfolding apply_session_transition apply_event apply_other apply_request dispatch is_event
  Step-apply _ _ valid (route at p later) =
      ground (arith, parse_session-Inv s v, next-moved-routing at)
  Step-apply _ _ valid (allocate at r q d p later) =
      ground (arith, parse_session-Inv s v, next-routed allocating at r q d)
  Step-apply _ _ valid (fall_back at r q d p later) =
      ground (arith, parse_session-Inv s v, next-routed fallback_allocating at r q d)
  Step-apply _ _ valid (connect at x r p later ahead) =
      ground (arith, parse_session-Inv s v, next-activated at x r)
  Step-apply _ _ valid (retain at x r p later ahead) =
      ground (arith, parse_session-Inv s v, next-retained at x r)
  Step-apply _ _ valid (ask at p later) =
      ground (arith, parse_session-Inv s v, next-moved-terminating at)
  Step-apply _ _ valid (ask_again at p) = ground (arith, parse_session-Inv s v)
  Step-apply _ _ valid (complete at r p later) =
      ground (arith, parse_session-Inv s v, next-ended terminated at r)
  Step-apply _ _ valid (run_out at r p later) =
      ground (arith, parse_session-Inv s v, next-ended expired at r)
  Step-apply _ _ valid (break_off at r p later) =
      ground (arith, parse_session-Inv s v, next-ended failed at r)

  -- What a call that succeeds has checked, and what it answers.
  abbrev Checked : SessionEvent → Session → Type 0
  Checked (begin_routing at) u =
      (s.status ≡ pending) × (s.updated_at ≤ at) × (bump_version (moved s routing at) ≡ u)
  Checked (begin_allocation at r q d) u =
      (s.status ≡ routing) × (s.updated_at ≤ at) × (bump_version (routed s allocating at r q d) ≡ u)
  Checked (begin_fallback_allocation at r q d) u =
      (s.status ≡ allocating)
      × (s.updated_at ≤ at)
      × (bump_version (routed s fallback_allocating at r q d) ≡ u)
  Checked (activate at x r) u =
      (is_allocating s.status ≡ true)
      × (s.updated_at ≤ at)
      × (at < x)
      × (bump_version (connected s active at x r) ≡ u)
  Checked (retain_for_cleanup at x r) u =
      (is_allocating s.status ≡ true)
      × (s.updated_at ≤ at)
      × (at < x)
      × (bump_version (connected s terminating at x r) ≡ u)
  Checked (request_termination at) u =
      ((s.status ≡ active) × (s.updated_at ≤ at) × (bump_version (moved s terminating at) ≡ u))
      ⊎ (IsEnding s.status × (s ≡ u))
  Checked (complete_termination at r) u =
      (s.status ≡ terminating) × (s.updated_at ≤ at) × (bump_version (ended s terminated at r) ≡ u)
  Checked (expire at r) u =
      (s.status ≡ active) × (s.updated_at ≤ at) × (bump_version (ended s expired at r) ≡ u)
  Checked (fail at r) u =
      (is_terminal s.status ≡ false)
      × (s.updated_at ≤ at)
      × (bump_version (ended s failed at r) ≡ u)

  abbrev Outcome : SessionEvent → Result SessionError Session → Type 0
  Outcome e (ok u) = Checked e u
  Outcome e (err schema_error) =
      IsExpiredOffer e × (is_allocating s.status ≡ true) × (s.updated_at ≤ event_at e)
  Outcome e (err invalid_transition) = Unit {0}

  apply-Outcome : (e : SessionEvent) → is_event e ≡ true → Outcome e (apply_session_transition s e)
  unfolding apply_session_transition apply_event apply_other apply_request dispatch is_event
  apply-Outcome (begin_routing at) valid =
      ground (arith, parse_session-Inv s v, next-moved-routing at)
  apply-Outcome (begin_allocation at r q d) valid =
      ground (arith, parse_session-Inv s v, next-routed allocating at r q d)
  apply-Outcome (begin_fallback_allocation at r q d) valid =
      ground (arith, parse_session-Inv s v, next-routed fallback_allocating at r q d)
  apply-Outcome (activate at x r) valid =
      ground (arith, parse_session-Inv s v, next-activated at x r, next-expired s active at x r)
  apply-Outcome (retain_for_cleanup at x r) valid =
      ground (arith, parse_session-Inv s v, next-retained at x r, next-expired s terminating at x r)
  apply-Outcome (request_termination at) valid =
      ground (arith, parse_session-Inv s v, next-moved-terminating at)
  apply-Outcome (complete_termination at r) valid =
      ground (arith, parse_session-Inv s v, next-ended terminated at r)
  apply-Outcome (expire at r) valid = ground (arith, parse_session-Inv s v, next-ended expired at r)
  apply-Outcome (fail at r) valid = ground (arith, parse_session-Inv s v, next-ended failed at r)

  Checked-Step : (e : SessionEvent) (u : Session) → Checked e u → Step s e u
  Checked-Step (begin_routing at) u (p, later, q) =
      subst (Step s (begin_routing at)) q (route at p later)
  Checked-Step (begin_allocation at r c d) u (p, later, q) =
      subst (Step s (begin_allocation at r c d)) q (allocate at r c d p later)
  Checked-Step (begin_fallback_allocation at r c d) u (p, later, q) =
      subst (Step s (begin_fallback_allocation at r c d)) q (fall_back at r c d p later)
  Checked-Step (activate at x r) u (p, later, ahead, q) =
      subst (Step s (activate at x r)) q (connect at x r p later ahead)
  Checked-Step (retain_for_cleanup at x r) u (p, later, ahead, q) =
      subst (Step s (retain_for_cleanup at x r)) q (retain at x r p later ahead)
  Checked-Step (request_termination at) u (inl (p, later, q)) =
      subst (Step s (request_termination at)) q (ask at p later)
  Checked-Step (request_termination at) u (inr (p, q)) =
      subst (Step s (request_termination at)) q (ask_again at p)
  Checked-Step (complete_termination at r) u (p, later, q) =
      subst (Step s (complete_termination at r)) q (complete at r p later)
  Checked-Step (expire at r) u (p, later, q) = subst (Step s (expire at r)) q (run_out at r p later)
  Checked-Step (fail at r) u (p, later, q) = subst (Step s (fail at r)) q (break_off at r p later)

  -- On a stored session whose version can still grow, `applySessionTransition` answers `u` for a
  -- well-formed event exactly when the relation has a step to `u`.
  pub apply_session_transition-Step :
      (e : SessionEvent) (u : Session)
      → is_event e ≡ true
      → (apply_session_transition s e ≡ ok u) ↔ Step s e u
  apply_session_transition-Step e u valid =
      (λ h. Checked-Step e u (subst (Outcome e) h (apply-Outcome e valid)), Step-apply e u valid)

  refuse-expired :
      (e : SessionEvent)
      → is_event e ≡ true
      → IsExpiredOffer e
      → is_allocating s.status ≡ true
      → s.updated_at ≤ event_at e
      → apply_session_transition s e ≡ err schema_error
  unfolding apply_session_transition apply_event apply_other dispatch is_event
  refuse-expired (activate at x r) valid over p later =
      ground (arith, parse_session-Inv s v, next-expired s active at x r)
  refuse-expired (retain_for_cleanup at x r) valid over p later =
      ground (arith, parse_session-Inv s v, next-expired s terminating at x r)
  refuse-expired (begin_routing at) valid over p later = absurd over
  refuse-expired (begin_allocation at r c d) valid over p later = absurd over
  refuse-expired (begin_fallback_allocation at r c d) valid over p later = absurd over
  refuse-expired (request_termination at) valid over p later = absurd over
  refuse-expired (complete_termination at r) valid over p later = absurd over
  refuse-expired (expire at r) valid over p later = absurd over
  refuse-expired (fail at r) valid over p later = absurd over

  -- A well-formed event meets a schema error, and not a `SessionTransitionError`, exactly when it
  -- would connect an allocating session, in time, with an expiry that does not follow the
  -- connection.
  pub session-schema_error :
      (e : SessionEvent)
      → is_event e ≡ true
      → (apply_session_transition s e ≡ err schema_error)
        ↔ (IsExpiredOffer e × (is_allocating s.status ≡ true) × (s.updated_at ≤ event_at e))
  session-schema_error e valid = (
    λ h. subst (Outcome e) h (apply-Outcome e valid),
    λ (over, p, later). refuse-expired e valid over p later,
  )
