-- ===== src/Session/ReconcilerTests.antt =====
-- reconciliation/session-reconciler.ts: a batch of an active session and of one whose
-- provider does not answer.
use surfgate.Common.{◌≡◌, refl, Bool, true, false, some, List, [], ◌∷◌, passes, ok}
use surfgate.Contracts.Text.{codes, is_slug, is_reason}
use surfgate.Contracts.Ids.{is_tenant_id, is_session_id, is_routing_decision_id}
use surfgate.Session.Record.{
  Session, terminating, terminated, is_protected_reference, parse_session,
}
use surfgate.Session.Transition.{
  moved, ended, bump_version, request_termination, is_event, next, apply_request, dispatch,
  apply_other, apply_event, apply_session_transition,
}
use surfgate.Session.Repository.{unchanged_session, transition_session_for_tenant, resolve_conflict}
use surfgate.Session.Tests.{in_use}
use surfgate.Session.Reconciler.{
  ReconciliationCandidate, ServiceCall, terminated_provider, CallLog, ReconcilerServices, reconcile,
  run_batch, reconcile_all, reconcile_from, clean_up, perform, transition_session,
}

-- A provider that answers once.
abbrev unsteady : CallLog → ServiceCall → Bool
unsteady (e ∷ f ∷ g ∷ log) (terminated_provider reference) = true
unsteady log e = false

abbrev services : ReconcilerServices
services = record {
  fails = unsteady;
  rows = λ log s e. record { at_read = some s; at_update = some s; at_second_read = some s };
  decrypt = λ reference tenant session.
      some (record { candidate = codes "chromium"; reference = codes "remote-1" });
  resolves = λ candidate. true;
  read_clock = λ log. some 500;
}

abbrev left_active : ReconciliationCandidate
left_active = record { session = in_use; database_now = 400; uncertain_allocation = false }

abbrev left_terminating : ReconciliationCandidate
left_terminating = record {
  session = bump_version (moved in_use terminating 150);
  database_now = 400;
  uncertain_allocation = true;
}

abbrev batch : List ReconciliationCandidate
batch = left_active ∷ left_terminating ∷ []

batch_run :
    (run_batch services batch []).0
    ≡ record { inspected = 2; recovered = 1; unresolved = 1; suspected_provider_leaks = 1 }
unfolding run_batch reconcile_all reconcile reconcile_from clean_up perform transition_session
    apply_session_transition apply_event apply_other dispatch next parse_session passes is_event
    is_session_id is_tenant_id is_slug is_protected_reference is_routing_decision_id is_reason
    apply_request
batch_run = refl

-- A session that another has ended meanwhile is answered as it is.
abbrev ended_meanwhile : Session
ended_meanwhile =
    bump_version
      (ended (bump_version (moved in_use terminating 150)) terminated 160 (codes "client_request"))

conflict_resolved :
    transition_session_for_tenant
      (record {
        at_read = some ended_meanwhile;
        at_update = some ended_meanwhile;
        at_second_read = some ended_meanwhile;
      })
      in_use.tenant_id
      in_use.id
      in_use.version
      (request_termination 400)
    ≡ ok (unchanged_session ended_meanwhile)
unfolding transition_session_for_tenant resolve_conflict apply_session_transition apply_event
    apply_other dispatch next parse_session passes is_event is_session_id is_tenant_id is_slug
    is_protected_reference is_routing_decision_id is_reason apply_request
conflict_resolved = refl
