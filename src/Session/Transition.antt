-- ===== src/Session/Transition.antt =====
-- domain/session.ts: the events of a session and `applySessionTransition`.
use surfgate.Common.{
  ◌+◌, Bool, true, not, ◌&&◌, Option, none, some, leb, all_option, guard, Result, ok, err, ◌>>=◌,
  ◌>>◌,
}
use surfgate.Contracts.Text.{Text, is_slug, is_reason}
use surfgate.Contracts.Ids.{is_routing_decision_id}
use surfgate.Contracts.Tasks.{Timestamp}
use surfgate.Session.Record.{
  Session, SessionStatus, pending, routing, allocating, fallback_allocating, active, terminating,
  terminated, expired, failed, is_protected_reference, is_terminal, parse_session,
}

pub data SessionEvent : Type 0 where
  begin_routing : (at : Timestamp) → SessionEvent
  begin_allocation begin_fallback_allocation :
      (at : Timestamp) (runtime provider : Text) (decision : Option Text) → SessionEvent
  activate retain_for_cleanup : (at expires_at : Timestamp) (reference : Text) → SessionEvent
  request_termination : (at : Timestamp) → SessionEvent
  complete_termination expire fail : (at : Timestamp) (reason : Text) → SessionEvent

abbrev pub event_at : SessionEvent → Timestamp
event_at (begin_routing at) = at
event_at (begin_allocation at r p d) = at
event_at (begin_fallback_allocation at r p d) = at
event_at (activate at x r) = at
event_at (retain_for_cleanup at x r) = at
event_at (request_termination at) = at
event_at (complete_termination at r) = at
event_at (expire at r) = at
event_at (fail at r) = at

-- `SessionTransitionEventSchema`
unfoldable pub is_event : SessionEvent → Bool
is_event (begin_routing at) = true
is_event (begin_allocation at r p d) = is_slug r && is_slug p && all_option is_routing_decision_id d
is_event (begin_fallback_allocation at r p d) =
    is_slug r && is_slug p && all_option is_routing_decision_id d
is_event (activate at x r) = is_protected_reference r
is_event (retain_for_cleanup at x r) = is_protected_reference r
is_event (request_termination at) = true
is_event (complete_termination at r) = is_reason r
is_event (expire at r) = is_reason r
is_event (fail at r) = is_reason r

-- `SessionTransitionError`, or the `ZodError` of a schema.
pub data SessionError : Type 0 where
  invalid_transition schema_error : SessionError

abbrev pub parsed {ℓ} : {A : Type ℓ} → Option A → Result SessionError A
parsed none = err schema_error
parsed (some a) = ok a

abbrev pub bump_version : Session → Session
bump_version s = record s { version = s.version + 1 }

-- `next`; the caller has put in the changes.
unfoldable pub next : Session → Result SessionError Session
next s = parsed (parse_session (bump_version s))

-- The changes that each kind of event makes.
abbrev pub moved : Session → SessionStatus → Timestamp → Session
moved s to at = record s { status = to; updated_at = at }

abbrev pub routed : Session → SessionStatus → Timestamp → Text → Text → Option Text → Session
routed s to at runtime provider decision = record s {
  status = to;
  updated_at = at;
  selected_runtime = some runtime;
  selected_provider = some provider;
  routing_decision_id = elim decision [ none ↦ s.routing_decision_id | some d ↦ some d ];
}

abbrev pub connected : Session → SessionStatus → Timestamp → Timestamp → Text → Session
connected s to at expires reference = record s {
  status = to;
  updated_at = at;
  connected_at = some at;
  expires_at = some expires;
  provider_session_reference_encrypted = some reference;
}

abbrev pub ended : Session → SessionStatus → Timestamp → Text → Session
ended s to at reason = record s {
  status = to;
  updated_at = at;
  terminated_at = some at;
  termination_reason = some reason;
}

-- The branch of `request_termination`.
unfoldable pub apply_request : SessionStatus → Session → Timestamp → Result SessionError Session
apply_request terminating s at = ok s
apply_request terminated s at = ok s
apply_request expired s at = ok s
apply_request failed s at = ok s
apply_request active s at = do
  guard (leb s.updated_at at) invalid_transition
  next (moved s terminating at)
apply_request _ s at = err invalid_transition

-- The `switch` over the status.
unfoldable pub dispatch : SessionStatus → SessionEvent → Session → Result SessionError Session
dispatch pending (begin_routing at) s = next (moved s routing at)
dispatch routing (begin_allocation at r p d) s = next (routed s allocating at r p d)
dispatch allocating (begin_fallback_allocation at r p d) s =
    next (routed s fallback_allocating at r p d)
dispatch allocating (activate at x r) s = next (connected s active at x r)
dispatch allocating (retain_for_cleanup at x r) s = next (connected s terminating at x r)
dispatch fallback_allocating (activate at x r) s = next (connected s active at x r)
dispatch fallback_allocating (retain_for_cleanup at x r) s = next (connected s terminating at x r)
dispatch active (expire at r) s = next (ended s expired at r)
dispatch terminating (complete_termination at r) s = next (ended s terminated at r)
dispatch _ _ s = err invalid_transition

-- The branches behind `request_termination` and the test of the time.
unfoldable pub apply_other : SessionEvent → Session → Result SessionError Session
apply_other (fail at r) s = do
  guard (not (is_terminal s.status)) invalid_transition
  next (ended s failed at r)
apply_other e s = dispatch s.status e s

-- `applySessionTransition`
unfoldable pub apply_event : SessionEvent → Session → Result SessionError Session
apply_event (request_termination at) s = apply_request s.status s at
apply_event e s = do guard (leb s.updated_at (event_at e)) invalid_transition; apply_other e s

unfoldable pub apply_session_transition : Session → SessionEvent → Result SessionError Session
apply_session_transition raw e = do
  s ← parsed (parse_session raw)
  guard (is_event e) schema_error
  apply_event e s
