-- ===== src/TaskStore/Sessions.antt =====
-- task-postgres/src/repository.ts: the reads of sessions.
use surfgate.Common.{ℕ, ◌-◌, ◌==◌, ◌&&◌, Option, none, some, List, ok}
use surfgate.Common.Rows.{first_row}
use surfgate.Contracts.Text.{Text, text_eq}
use surfgate.Contracts.Tasks.{Timestamp}
use surfgate.Session.Record.{Session, SessionStatus}
use surfgate.TaskStore.Transaction.{Tx}

-- `select status, expires_at from sessions where tenant_id=$1 and id=$2`
unfoldable pub session_row : Text → Text → List Session → Option Session
unfolding first_row
session_row tenant id = first_row (λ s. s.tenant_id == tenant && s.id == id)

pub record ManagedTaskSession : Type 0 where
  pub tenant_id : Text
  pub session_id : Text
  pub status : SessionStatus
  pub selected_runtime : Option Text
  pub expires_at : Option Timestamp
  pub remaining_lifetime_ms : ℕ
  pub provider_session_reference_encrypted : Option Text

-- `greatest(0, expires_at - clock_timestamp())`, and 0 where the session has no expiry.
abbrev remaining_lifetime : Option Timestamp → Timestamp → ℕ
remaining_lifetime none now = 0
remaining_lifetime (some expiry) now = expiry - now

abbrev execution_session : Timestamp → Option Session → Option ManagedTaskSession
execution_session now none = none
execution_session now (some s) = some (record {
  tenant_id = s.tenant_id;
  session_id = s.id;
  status = s.status;
  selected_runtime = s.selected_runtime;
  expires_at = s.expires_at;
  remaining_lifetime_ms = remaining_lifetime s.expires_at now;
  provider_session_reference_encrypted = s.provider_session_reference_encrypted;
})

-- `findExecutionSession`
unfoldable pub find_execution_session : Text → Text → Timestamp → Tx (Option ManagedTaskSession)
unfolding session_row
find_execution_session tenant id now db =
    ok (execution_session now (session_row tenant id db.sessions), db)
