-- ===== src/Session/Tests.antt =====
-- A session that allocates, falls back, connects and ends, and the theorems at it.
use surfgate.Common.{
  ◌+◌, ◌≤◌, ◌≡◌, refl, ◌↔◌, true, none, some, List, [], ◌∷◌, arith, ok, err, passes,
}
use surfgate.Contracts.Text.{Text, codes, is_slug, is_reason}
use surfgate.Contracts.Ids.{is_tenant_id, is_session_id, is_routing_decision_id}
use surfgate.Contracts.Capabilities.{required}
use surfgate.Session.Record.{Session, pending, allocating, is_protected_reference, parse_session}
use surfgate.Session.Transition.{
  SessionEvent, begin_routing, begin_allocation, begin_fallback_allocation, activate,
  request_termination, complete_termination, is_event, bump_version, moved, routed, connected,
  ended, next, apply_request, dispatch, apply_other, apply_event, apply_session_transition,
  schema_error,
}
use surfgate.Session.Record.{
  routing, active, fallback_allocating, terminating, terminated, is_terminal,
}
use surfgate.Session.Invariant.{Inv, is_allocating}
use surfgate.Session.Step.{Step, IsExpiredOffer}
use surfgate.Session.Steps.{apply_session_transition-Step, session-schema_error}
use surfgate.Session.Lifetime.{
  History, here, accepted, SameSession, SameRuntime, History-Progress, session_settles,
  session_pinned,
}

abbrev reference : Text
reference = codes "psr.v1.key-1.0123456789abcdef.c2VjcmV0.0123456789abcdef012345"

abbrev fresh : Session
fresh = record {
  id = codes "ses_01ARZ3NDEKTSV4RRFFQ69G5FAV";
  tenant_id = codes "ten_01ARZ3NDEKTSV4RRFFQ69G5FAV";
  status = pending;
  requested_capabilities = λ c. some required;
  selected_runtime = none;
  selected_provider = none;
  provider_session_reference_encrypted = none;
  routing_decision_id = none;
  created_at = 100;
  updated_at = 100;
  connected_at = none;
  expires_at = none;
  terminated_at = none;
  termination_reason = none;
  version = 0;
}

fresh-Inv : Inv fresh
unfolding is_session_id is_tenant_id is_slug is_protected_reference is_routing_decision_id is_reason
fresh-Inv = record {
  fields = (refl, (refl, (refl, (refl, (refl, (refl, (refl, (refl, tt))))))));
  consistent = (refl, (refl, (refl, (refl, (refl, (refl, tt))))));
  chosen = λ e. cc;
}

abbrev in_routing : Session
in_routing = bump_version (moved fresh routing 110)

abbrev in_allocation : Session
in_allocation =
    bump_version (routed in_routing allocating 120 (codes "kitesurf") (codes "cloudflare") none)

abbrev in_fallback : Session
in_fallback =
    bump_version
      (routed in_allocation fallback_allocating 130 (codes "chromium") (codes "cloudflare") none)

abbrev connecting : SessionEvent
connecting = activate 140 900 reference

abbrev pub in_use : Session
in_use = bump_version (connected in_fallback active 140 900 reference)

allocated-History :
    History fresh
      (begin_allocation 120 (codes "kitesurf") (codes "cloudflare") none ∷ begin_routing 110 ∷ [])
      in_allocation
unfolding apply_session_transition apply_event apply_other dispatch next parse_session passes
    is_event is_session_id is_tenant_id is_slug is_protected_reference is_routing_decision_id
    is_reason apply_request
allocated-History = accepted _ (accepted _ here refl) refl

in_use-History :
    History in_allocation
      (connecting ∷ begin_fallback_allocation 130 (codes "chromium") (codes "cloudflare") none ∷ [])
      in_use
unfolding apply_session_transition apply_event apply_other dispatch next parse_session passes
    is_event is_session_id is_tenant_id is_slug is_protected_reference is_routing_decision_id
    is_reason apply_request
in_use-History = accepted _ (accepted _ here refl) refl

abbrev closing : List SessionEvent
closing =
    request_termination 170
    ∷ complete_termination 160 (codes "client_request")
    ∷ request_termination 150
    ∷ []

abbrev closed : Session
closed =
    bump_version
      (ended (bump_version (moved in_use terminating 150)) terminated 160 (codes "client_request"))

closed-History : History in_use closing closed
unfolding apply_session_transition apply_event apply_other dispatch next parse_session passes
    is_event is_session_id is_tenant_id is_slug is_protected_reference is_routing_decision_id
    is_reason apply_request
closed-History = accepted _ (accepted _ (accepted _ here refl) refl) refl

in_allocation-Inv : Inv in_allocation
in_allocation-Inv = (History-Progress fresh in_allocation _ fresh-Inv allocated-History).stored

in_use-Inv : Inv in_use
in_use-Inv = (History-Progress in_allocation in_use _ in_allocation-Inv in_use-History).stored

apply_session_transition-Step_example :
    (apply_session_transition fresh (begin_routing 110) ≡ ok in_routing)
    ↔ Step fresh (begin_routing 110) in_routing
apply_session_transition-Step_example =
    apply_session_transition-Step fresh fresh-Inv (omega arith) (begin_routing 110) in_routing
      (unfold is_event in refl)

session-schema_error_example :
    (apply_session_transition in_allocation (activate 140 140 reference) ≡ err schema_error) ↔ (
      IsExpiredOffer (activate 140 140 reference)
      × (is_allocating in_allocation.status ≡ true)
      × (in_allocation.updated_at ≤ 140))
session-schema_error_example =
    session-schema_error in_allocation in_allocation-Inv (omega arith) (activate 140 140 reference)
      (unfold is_event is_protected_reference in refl)

session_settles_example :
    (in_allocation.version ≤ 0 + 6)
    × (is_terminal fresh.status ≡ true → in_allocation ≡ fresh)
    × SameSession fresh in_allocation
    × (100 ≤ 120)
    × (0 ≤ in_allocation.version)
session_settles_example = session_settles fresh in_allocation _ fresh-Inv allocated-History

session_pinned_example : SameRuntime in_use closed
session_pinned_example = session_pinned in_use closed closing in_use-Inv refl closed-History
