-- ===== src/Session/Reconciled.antt =====
-- reconciliation/session-reconciler.ts: what a batch has done, whichever of its calls fail.
use surfgate.Common.{Bool, Result, ok, err}
use surfgate.Contracts.Text.{Text}
use surfgate.Session.Record.{Session}
use surfgate.Session.Reconciler.{CallLog, ReconcilerServices}
use surfgate.Session.Justified.{IsJustified}

module _ (d : ReconcilerServices) where
  abbrev Kept : Result CallLog (Bool × CallLog) → Type 0
  Kept (err log) = IsJustified d log
  Kept (ok x) = IsJustified d x.1
