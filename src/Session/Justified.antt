-- ===== src/Session/Justified.antt =====
-- reconciliation/session-reconciler.ts: the order in which a batch may make its calls.
use surfgate.Common.{◌≡◌, true, some, [], ◌∷◌}
use surfgate.Contracts.Text.{Text}
use surfgate.Session.Record.{Session, terminating, failed}
use surfgate.Session.Transition.{SessionEvent, complete_termination}
use surfgate.Session.Repository.{session_of}
use surfgate.Session.Reached.{AnsweredBy, Reaches}
use surfgate.Session.Reconciler.{
  ProtectedSession, ServiceCall, transitioned, finalized, terminated_provider, CallLog,
  ReconcilerServices,
}

-- The provider's session of a reference has just been ended.
pub record Freed (d : ReconcilerServices) (s : Session) (log : CallLog) : Type 0 where
  pub ending : s.status ≡ terminating
  pub reference : Text
  pub held : s.provider_session_reference_encrypted ≡ some reference
  pub protected : ProtectedSession
  pub opened : d.decrypt reference s.tenant_id s.id ≡ some protected
  pub known : d.resolves protected.candidate ≡ true
  pub before : CallLog
  pub last_call : log ≡ terminated_provider protected.reference ∷ before

-- What has to have happened before a termination is completed.
abbrev pub MayFollow : ReconcilerServices → Session → SessionEvent → CallLog → Type 0
MayFollow d s (complete_termination at reason) log = Freed d s log
MayFollow d s e log = Unit {0}

abbrev pub Justified : ReconcilerServices → ServiceCall → CallLog → Type 0
Justified d (transitioned s e a) log =
    AnsweredBy s.version e a × Reaches e (session_of a) × MayFollow d s e log
Justified d (finalized s at) log = s.status ≡ failed
Justified d (terminated_provider reference) log = Unit {0}

-- Every call of a log is justified by those before it.
abbrev pub IsJustified : ReconcilerServices → CallLog → Type 0
IsJustified d [] = Unit {0}
IsJustified d (e ∷ log) = Justified d e log × IsJustified d log
