-- ===== src/Session/Lifetime.antt =====
-- domain/session.ts: any sequence of transitions of a session.
use surfgate.Common.{
  ℕ, ◌+◌, ◌≤◌, ◌<◌, ◌≡◌, refl, sym, subst, ap, ◌∙◌, ◌⊎◌, inl, inr, Bool, true, false, some, List,
  [], ◌∷◌, arith, ok, passes, AllTrue, passes-AllTrue,
}
use surfgate.Task.Record.{max_safe_integer}
use surfgate.Session.Record.{
  Session, SessionStatus, pending, routing, allocating, fallback_allocating, active, terminating,
  terminated, expired, failed, is_terminal, parse_session, field_checks,
}
use surfgate.Session.Transition.{
  SessionEvent, begin_routing, begin_allocation, begin_fallback_allocation, activate,
  retain_for_cleanup, request_termination, complete_termination, expire, fail, is_event,
  bump_version, moved, routed, connected, ended, next, apply_request, dispatch, apply_other,
  apply_event, apply_session_transition,
}
use surfgate.Session.Invariant.{
  Inv, parse_session-Inv, moved-routing-Inv, moved-terminating-Inv, routed-Inv, connected-Inv,
  ended-Inv,
}
use surfgate.Session.Step.{
  Step, route, allocate, fall_back, connect, retain, ask, ask_again, complete, run_out, break_off,
}
use surfgate.Session.Steps.{apply_session_transition-Step}

parse_session-fields : (s u : Session) → parse_session s ≡ some u → passes (field_checks s) ≡ true
unfolding parse_session
parse_session-fields s u h = ground arith

next-small : (s u : Session) → next s ≡ ok u → s.version < max_safe_integer
unfolding next
next-small s u h =
    let valid : AllTrue (field_checks (bump_version s)) =
      passes-AllTrue _ (parse_session-fields (bump_version s) u (ground arith)) in
    ground arith

-- A session that changes had room for its next version.
apply-small :
    (s u : Session) (e : SessionEvent)
    → Inv s
    → apply_session_transition s e ≡ ok u
    → (is_event e ≡ true) × ((u ≡ s) ⊎ (s.version < max_safe_integer))
unfolding apply_session_transition apply_event apply_other apply_request dispatch
apply-small s u (begin_routing at) v h =
    ground (arith, parse_session-Inv s v, next-small (moved s routing at) u)
apply-small s u (begin_allocation at r p d) v h =
    ground (arith, parse_session-Inv s v, next-small (routed s allocating at r p d) u)
apply-small s u (begin_fallback_allocation at r p d) v h =
    ground (arith, parse_session-Inv s v, next-small (routed s fallback_allocating at r p d) u)
apply-small s u (activate at x r) v h =
    ground (arith, parse_session-Inv s v, next-small (connected s active at x r) u)
apply-small s u (retain_for_cleanup at x r) v h =
    ground (arith, parse_session-Inv s v, next-small (connected s terminating at x r) u)
apply-small s u (request_termination at) v h =
    ground (arith, parse_session-Inv s v, next-small (moved s terminating at) u)
apply-small s u (complete_termination at r) v h =
    ground (arith, parse_session-Inv s v, next-small (ended s terminated at r) u)
apply-small s u (expire at r) v h =
    ground (arith, parse_session-Inv s v, next-small (ended s expired at r) u)
apply-small s u (fail at r) v h =
    ground (arith, parse_session-Inv s v, next-small (ended s failed at r) u)

-- How far a session has come.
abbrev pub rank : SessionStatus → ℕ
rank pending = 0
rank routing = 1
rank allocating = 2
rank fallback_allocating = 3
rank active = 4
rank terminating = 5
rank terminated = 6
rank expired = 6
rank failed = 6

-- What no transition changes.
pub record SameSession (s u : Session) : Type 0 where
  pub id : u.id ≡ s.id
  pub tenant : u.tenant_id ≡ s.tenant_id
  pub capabilities : u.requested_capabilities ≡ s.requested_capabilities
  pub created : u.created_at ≡ s.created_at

-- What no transition changes once a session is connected.
pub record SameRuntime (s u : Session) : Type 0 where
  pub runtime : u.selected_runtime ≡ s.selected_runtime
  pub provider : u.selected_provider ≡ s.selected_provider
  pub reference : u.provider_session_reference_encrypted ≡ s.provider_session_reference_encrypted
  pub connected_at : u.connected_at ≡ s.connected_at
  pub expires_at : u.expires_at ≡ s.expires_at

-- A session that was connected: its lifecycle is past allocation.
abbrev pub was_connected : SessionStatus → Bool
was_connected active = true
was_connected terminating = true
was_connected terminated = true
was_connected expired = true
was_connected failed = true
was_connected _ = false

pub record Progress (s u : Session) : Type 0 where
  pub stored : Inv u
  pub steps : u.version + rank s.status ≤ s.version + rank u.status
  pub versions : s.version ≤ u.version
  pub dated : s.updated_at ≤ u.updated_at
  pub same : SameSession s u
  pub over : is_terminal s.status ≡ true → u ≡ s
  pub pinned : was_connected s.status ≡ true → SameRuntime s u × (was_connected u.status ≡ true)

Step-Inv :
    (s u : Session) (e : SessionEvent)
    → Inv s
    → s.version < max_safe_integer
    → is_event e ≡ true
    → Step s e u
    → Inv u
unfolding is_event
Step-Inv s _ _ v small valid (route at p later) = moved-routing-Inv s v small at later p
Step-Inv s _ _ v small valid (allocate at r q d p later) =
    routed-Inv s v small at later allocating r q d refl (ground arith) (ground arith) (ground arith)
      (ground arith)
Step-Inv s _ _ v small valid (fall_back at r q d p later) =
    routed-Inv s v small at later fallback_allocating r q d refl (ground arith) (ground arith)
      (ground arith) (ground arith)
Step-Inv s _ _ v small valid (connect at x r p later ahead) =
    connected-Inv s v small at later active x r (inl refl) p ahead valid
Step-Inv s _ _ v small valid (retain at x r p later ahead) =
    connected-Inv s v small at later terminating x r (inr refl) p ahead valid
Step-Inv s _ _ v small valid (ask at p later) = moved-terminating-Inv s v small at later p
Step-Inv s _ _ v small valid (ask_again at p) = v
Step-Inv s _ _ v small valid (complete at r p later) =
    ended-Inv s v small at later terminated r refl (ground arith) valid
Step-Inv s _ _ v small valid (run_out at r p later) =
    ended-Inv s v small at later expired r refl (ground arith) valid
Step-Inv s _ _ v small valid (break_off at r p later) =
    ended-Inv s v small at later failed r refl (ground arith) valid

Step-Progress : (s u : Session) (e : SessionEvent) → Inv u → Step s e u → Progress s u
Step-Progress s _ _ i (route at p later) = ground arith
Step-Progress s _ _ i (allocate at r q d p later) = ground arith
Step-Progress s _ _ i (fall_back at r q d p later) = ground arith
Step-Progress s _ _ i (connect at x r p later ahead) = ground arith
Step-Progress s _ _ i (retain at x r p later ahead) = ground arith
Step-Progress s _ _ i (ask at p later) = ground arith
Step-Progress s _ _ i (ask_again at p) = ground arith
Step-Progress s _ _ i (complete at r p later) = ground arith
Step-Progress s _ _ i (run_out at r p later) = ground arith
Step-Progress s _ _ i (break_off at r p later) = ground arith

Progress-refl : (s : Session) → Inv s → Progress s s
Progress-refl s v = ground arith

apply-Progress :
    (s u : Session) (e : SessionEvent) → Inv s → apply_session_transition s e ≡ ok u → Progress s u
apply-Progress s u e v h =
    let (valid, room) = apply-small s u e v h in
    elim room [
      | inl same ↦ subst (Progress s) (sym same) (Progress-refl s v)
      | inr small ↦
          let step : Step s e u = (apply_session_transition-Step s v small e u valid).0 h in
          Step-Progress s u e (Step-Inv s u e v small valid step) step
    ]

-- The events that a session has accepted, the latest first.
pub data History (s : Session) : List SessionEvent → Session → Type 0 where
  here : History s [] s
  accepted :
      {es : List SessionEvent} {u w : Session} (e : SessionEvent)
      → History s es u
      → apply_session_transition u e ≡ ok w
      → History s (e ∷ es) w

Progress-trans : (s u w : Session) → Progress s u → Progress u w → Progress s w
Progress-trans s u w p q =
    let settled : is_terminal s.status ≡ true → w ≡ s =
      λ t. q.over (ap (λ x. is_terminal x.status) (p.over t) ∙ t) ∙ p.over t in
    record {
      stored = q.stored;
      steps = omega (arith, p.steps, q.steps);
      versions = omega (arith, p.versions, q.versions);
      dated = omega (arith, p.dated, q.dated);
      same = record {
        id = q.same.id ∙ p.same.id;
        tenant = q.same.tenant ∙ p.same.tenant;
        capabilities = q.same.capabilities ∙ p.same.capabilities;
        created = q.same.created ∙ p.same.created;
      };
      over = settled;
      pinned =
          λ c. both s u w (p.pinned c).0 (q.pinned (p.pinned c).1).0 (q.pinned (p.pinned c).1).1;
    }
  where
    both :
        (s u w : Session)
        → SameRuntime s u
        → SameRuntime u w
        → was_connected w.status ≡ true
        → SameRuntime s w × (was_connected w.status ≡ true)
    both s u w h k c = ground arith

pub History-Progress :
    (s u : Session) (es : List SessionEvent) → Inv s → History s es u → Progress s u
History-Progress s _ _ v here = Progress-refl s v
History-Progress s w _ v (accepted {es} {u} e past h) =
    let p : Progress s u = History-Progress s u es v past in
    Progress-trans s u w p (apply-Progress u w e p.stored h)

-- Whatever events a stored session accepts, its version rises by at most six, and one that has
-- ended stays exactly as it is; its identity, tenant, capabilities and creation stay, and its
-- update time and version never go back.
pub session_settles :
    (s u : Session) (es : List SessionEvent)
    → Inv s
    → History s es u
    → (u.version ≤ s.version + 6)
      × (is_terminal s.status ≡ true → u ≡ s)
      × SameSession s u
      × (s.updated_at ≤ u.updated_at)
      × (s.version ≤ u.version)
session_settles s u es v past =
    let p : Progress s u = History-Progress s u es v past in
    (at_most_six p.steps, p.over, p.same, p.dated, p.versions)
  where
    at_most_six : u.version + rank s.status ≤ s.version + rank u.status → u.version ≤ s.version + 6
    at_most_six h = ground arith

-- A session that has been connected never moves: whatever it accepts, its runtime, its provider,
-- its protected reference, its connection time and its expiry stay as they are.
pub session_pinned :
    (s u : Session) (es : List SessionEvent)
    → Inv s
    → was_connected s.status ≡ true
    → History s es u
    → SameRuntime s u
session_pinned s u es v c past = ((History-Progress s u es v past).pinned c).0
