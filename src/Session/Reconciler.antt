-- ===== src/Session/Reconciler.antt =====
-- reconciliation/session-reconciler.ts: the end of sessions that a service has left behind.
use surfgate.Common.{
  ℕ, ◌+◌, Bool, true, false, Option, none, some, List, [], ◌∷◌, if◌then◌else◌, length, Result, ok,
  err, guard, ◌>>=◌, ◌>>◌,
}
use surfgate.Contracts.Text.{Text, codes}
use surfgate.Contracts.Tasks.{Timestamp}
use surfgate.Session.Record.{
  Session, SessionStatus, pending, routing, allocating, fallback_allocating, active, terminating,
  terminated, expired, failed,
}
use surfgate.Session.Repository.{
  RepositoryError, SessionReads, SessionAnswer, session_of, transition_session_for_tenant,
}
use surfgate.Session.Transition.{SessionEvent, request_termination, complete_termination, fail}

-- `SessionReconciliationCandidate`
pub record ReconciliationCandidate : Type 0 where
  pub session : Session
  pub database_now : Timestamp
  pub uncertain_allocation : Bool

-- What is read from a protected reference: the candidate that names the provider, and the
-- provider's own reference.
pub record ProtectedSession : Type 0 where
  pub candidate : Text
  pub reference : Text

-- A call of the repository or of the provider that has answered.
pub data ServiceCall : Type 0 where
  transitioned : (s : Session) (e : SessionEvent) (answer : SessionAnswer) → ServiceCall
  finalized : (s : Session) (at : Timestamp) → ServiceCall
  terminated_provider : (reference : Text) → ServiceCall

-- The calls that have answered, the latest first.
abbrev pub CallLog : Type 0
CallLog = List ServiceCall

-- What the reconciler is given: which call throws, the rows that the repository meets, the
-- protector, the registry and the clock of the database. All of it may depend on what has happened
-- before.
pub record ReconcilerServices : Type 0 where
  pub fails : CallLog → ServiceCall → Bool
  pub rows : CallLog → Session → SessionEvent → SessionReads
  pub decrypt : (reference tenant_id session_id : Text) → Option ProtectedSession
  pub resolves : (candidate : Text) → Bool
  pub read_clock : CallLog → Option Timestamp

pub record Totals : Type 0 where
  pub inspected : ℕ
  pub recovered : ℕ
  pub unresolved : ℕ
  pub suspected_provider_leaks : ℕ

-- A value, or the call that should give it throws.
abbrev pub given : {A : Type 0} → Option A → CallLog → Result CallLog A
given none log = err log
given (some a) log = ok a

-- The reference that a session to clean up has.
abbrev pub to_clean : SessionStatus → Option Text → Option Text
to_clean terminating reference = reference
to_clean _ reference = none

abbrev pub is_in_use : SessionStatus → Bool
is_in_use active = true
is_in_use _ = false

abbrev pub completion_reason : ReconciliationCandidate → Text
completion_reason c =
    if is_in_use c.session.status then codes "session_expired" else codes "reconciled_cleanup"

abbrev pub failure_reason : ReconciliationCandidate → Text
failure_reason c =
    if c.uncertain_allocation
    then codes "allocation_outcome_uncertain"
    else codes "reconciliation_timeout"

module _ (d : ReconcilerServices) where
  unfoldable pub perform : ServiceCall → CallLog → Result CallLog CallLog
  perform e log = if d.fails log e then err log else ok (e ∷ log)

  abbrev pub noted :
      Session
      → SessionEvent
      → CallLog
      → Result RepositoryError SessionAnswer
      → Result CallLog (Session × CallLog)
  noted s e log (err x) = err log
  noted s e log (ok a) = do after ← perform (transitioned s e a) log; ok (session_of a, after)

  -- The call of `transitionSessionForTenant`, with the version of the session that is held.
  unfoldable pub transition_session :
      Session → SessionEvent → CallLog → Result CallLog (Session × CallLog)
  unfolding perform transition_session_for_tenant
  transition_session s e log =
      noted s e log (transition_session_for_tenant (d.rows log s e) s.tenant_id s.id s.version e)

  unfoldable pub clean_up :
      ReconciliationCandidate → Session → CallLog → Option Text → Result CallLog (Bool × CallLog)
  unfolding perform transition_session
  clean_up c s log none = ok (false, log)
  clean_up c s log (some reference) = do
    p ← given (d.decrypt reference s.tenant_id s.id) log
    guard (d.resolves p.candidate) log
    freed ← perform (terminated_provider p.reference) log
    at ← given (d.read_clock freed) freed
    done ← transition_session s (complete_termination at (completion_reason c)) freed
    ok (true, done.1)

  unfoldable pub fail_candidate :
      ReconciliationCandidate → CallLog → Result CallLog (Bool × CallLog)
  unfolding perform transition_session
  fail_candidate c log = do
    over ← transition_session c.session (fail c.database_now (failure_reason c)) log
    after ← perform (finalized over.0 c.database_now) over.1
    ok (true, after)

  abbrev pub clean_session :
      ReconciliationCandidate → Session → CallLog → Result CallLog (Bool × CallLog)
  clean_session c s log =
      clean_up c s log (to_clean s.status s.provider_session_reference_encrypted)

  -- `#reconcile`, by the status of the candidate's session.
  unfoldable pub reconcile_from :
      SessionStatus → ReconciliationCandidate → CallLog → Result CallLog (Bool × CallLog)
  unfolding clean_up fail_candidate perform transition_session
  reconcile_from failed c log = do
    after ← perform (finalized c.session c.database_now) log
    ok (true, after)
  reconcile_from pending c log = fail_candidate c log
  reconcile_from routing c log = fail_candidate c log
  reconcile_from allocating c log = fail_candidate c log
  reconcile_from fallback_allocating c log = fail_candidate c log
  reconcile_from active c log = do
    asked ← transition_session c.session (request_termination c.database_now) log
    clean_session c asked.0 asked.1
  reconcile_from terminating c log = clean_session c c.session log
  reconcile_from terminated c log = clean_session c c.session log
  reconcile_from expired c log = clean_session c c.session log

  unfoldable pub reconcile : ReconciliationCandidate → CallLog → Result CallLog (Bool × CallLog)
  unfolding reconcile_from
  reconcile c log = reconcile_from c.session.status c log

  abbrev pub counted : ReconciliationCandidate → Bool → Totals → Totals
  counted c recovered t = record {
    inspected = t.inspected;
    recovered = if recovered then t.recovered + 1 else t.recovered;
    unresolved = if recovered then t.unresolved else t.unresolved + 1;
    suspected_provider_leaks =
        if c.uncertain_allocation
        then t.suspected_provider_leaks + 1
        else t.suspected_provider_leaks;
  }

  -- An error of one candidate counts it as unresolved.
  abbrev pub tallied :
      ReconciliationCandidate → Totals → Result CallLog (Bool × CallLog) → Totals × CallLog
  tallied c t (err log) = (counted c false t, log)
  tallied c t (ok (recovered, log)) = (counted c recovered t, log)

  unfoldable pub reconcile_all : List ReconciliationCandidate → Totals → CallLog → Totals × CallLog
  unfolding reconcile
  reconcile_all [] t log = (t, log)
  reconcile_all (c ∷ cs) t log =
      let after : Totals × CallLog = tallied c t (reconcile c log) in
      reconcile_all cs after.0 after.1

  -- `runBatch`, on the candidates that the repository has found.
  unfoldable pub run_batch : List ReconciliationCandidate → CallLog → Totals × CallLog
  unfolding reconcile_all
  run_batch cs log =
      reconcile_all cs
        (record {
          inspected = length cs;
          recovered = 0;
          unresolved = 0;
          suspected_provider_leaks = 0;
        })
        log
