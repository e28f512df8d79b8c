-- ===== src/Session/Repository.antt =====
-- database/postgres-session-repository.ts: `transitionSessionForTenant` and `resolveConflict`.
use surfgate.Common.{
  ℕ, ◌&&◌, Option, none, some, nat_eq, if◌then◌else◌, Result, ok, err, guard, ◌>>=◌, ◌>>◌,
}
use surfgate.Contracts.Text.{Text}
use surfgate.Contracts.Ids.{is_tenant_id, is_session_id}
use surfgate.Session.Record.{
  Session, SessionStatus, pending, routing, allocating, fallback_allocating, active, terminating,
  terminated, expired, failed, parse_session,
}
use surfgate.Session.Transition.{
  SessionEvent, SessionError, invalid_transition, schema_error, apply_session_transition,
}

pub data RepositoryError : Type 0 where
  invalid_session_key session_not_found session_conflict invalid_session : RepositoryError
  refused_transition : RepositoryError

-- The row with the tenant's and the session's identifier at the three statements of a transition:
-- the first read, the update, and the read after an update that has met no row. Others may commit
-- between them.
pub record SessionReads : Type 0 where
  pub at_read : Option Session
  pub at_update : Option Session
  pub at_second_read : Option Session

-- The row that the caller is given: one that has not been changed, or the one that has been read,
-- changed.
pub data SessionAnswer : Type 0 where
  unchanged_session updated_session : (s : Session) → SessionAnswer

abbrev pub session_of : SessionAnswer → Session
session_of (unchanged_session s) = s
session_of (updated_session s) = s

-- `sessionFromRow` parses what it reads.
abbrev pub session_from_row : Session → Result RepositoryError Session
session_from_row row = elim (parse_session row) [ none ↦ err invalid_session | some s ↦ ok s ]

-- `findSessionForTenant`, where no row is an error.
abbrev pub find_session : Option Session → Result RepositoryError Session
find_session none = err session_not_found
find_session (some row) = session_from_row row

-- What `applySessionTransition` throws.
abbrev pub thrown : SessionError → RepositoryError
thrown invalid_transition = refused_transition
thrown schema_error = invalid_session

abbrev pub applied : Session → SessionEvent → Result RepositoryError Session
applied s e = elim (apply_session_transition s e) [ ok u ↦ ok u | err x ↦ err (thrown x) ]

-- A conflict is resolved if the event leaves the row as it is.
abbrev pub resolved : Session → Result SessionError Session → Result RepositoryError SessionAnswer
resolved current (ok u) =
    if nat_eq u.version current.version
    then ok (unchanged_session current)
    else err session_conflict
resolved current (err invalid_transition) = err session_conflict
resolved current (err schema_error) = err invalid_session

unfoldable pub resolve_conflict : Session → SessionEvent → Result RepositoryError SessionAnswer
resolve_conflict current e = resolved current (apply_session_transition current e)

-- `status = $4`
abbrev pub status_number : SessionStatus → ℕ
status_number pending = 0
status_number routing = 1
status_number allocating = 2
status_number fallback_allocating = 3
status_number active = 4
status_number terminating = 5
status_number terminated = 6
status_number expired = 7
status_number failed = 8

-- The columns that the statement sets.
abbrev pub set_session_columns : Session → Session → Session
set_session_columns next row = record row {
  status = next.status;
  selected_runtime = next.selected_runtime;
  selected_provider = next.selected_provider;
  provider_session_reference_encrypted = next.provider_session_reference_encrypted;
  routing_decision_id = next.routing_decision_id;
  updated_at = next.updated_at;
  connected_at = next.connected_at;
  expires_at = next.expires_at;
  terminated_at = next.terminated_at;
  termination_reason = next.termination_reason;
  version = next.version;
}

-- `where … version = $3 and status = $4`, on the row of the key.
abbrev pub updated_row : Session → Session → Option Session → Option Session
updated_row current next none = none
updated_row current next (some row) =
    if nat_eq row.version current.version
      && nat_eq (status_number row.status) (status_number current.status)
    then some (set_session_columns next row)
    else none

-- The row that the update returns, or the conflict with the row that is there instead.
abbrev pub written :
    SessionReads → SessionEvent → Option Session → Result RepositoryError SessionAnswer
written r e (some row) = do s ← session_from_row row; ok (updated_session s)
written r e none = do competing ← find_session r.at_second_read; resolve_conflict competing e

abbrev pub write_session :
    SessionReads → SessionEvent → Session → Session → Result RepositoryError SessionAnswer
write_session r e current next =
    if nat_eq next.version current.version
    then ok (unchanged_session current)
    else written r e (updated_row current next r.at_update)

abbrev pub apply_to_current :
    SessionReads → SessionEvent → Session → Result RepositoryError SessionAnswer
apply_to_current r e current = do next ← applied current e; write_session r e current next

abbrev pub at_version :
    SessionReads → ℕ → SessionEvent → Session → Result RepositoryError SessionAnswer
at_version r expected_version e current =
    if nat_eq current.version expected_version
    then apply_to_current r e current
    else resolve_conflict current e

-- `transitionSessionForTenant`
unfoldable pub transition_session_for_tenant :
    SessionReads → Text → Text → ℕ → SessionEvent → Result RepositoryError SessionAnswer
unfolding resolve_conflict
transition_session_for_tenant r tenant session expected_version e = do
  guard (is_tenant_id tenant) invalid_session_key
  guard (is_session_id session) invalid_session_key
  current ← find_session r.at_read
  at_version r expected_version e current
