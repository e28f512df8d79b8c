-- ===== src/TaskStore/Sound/Calls.antt =====
-- task-postgres/src/repository.ts: any sequence of committed calls.
use surfgate.Common.{◌≡◌, refl, List, [], ◌∷◌, Bool, Result, ok, err}
use surfgate.Contracts.Text.{Text}
use surfgate.Contracts.Tasks.{Timestamp}
use surfgate.Task.Record.{TaskRecord}
use surfgate.TaskStore.Transaction.{Database, StoreError, Tx, Ensures}
use surfgate.TaskStore.Create.{CreateInput, create_idempotent}
use surfgate.TaskStore.Change.{
  TransitionInput, CompleteInput, transition, write_transition, insert_artifact_and_complete,
}
use surfgate.TaskStore.Claim.{ClaimInput, claim_next, claim_of_tenant, fail_exhausted}
use surfgate.TaskStore.Sound.{Sound, IsSound}
use surfgate.TaskStore.Sound.Create.{create_idempotent-Sound}
use surfgate.TaskStore.Sound.Change.{
  transition-Sound, write_transition-Sound, insert_artifact_and_complete-Sound,
}
use surfgate.TaskStore.Sound.Claim.{claim_next-Sound, claim_of_tenant-Sound, fail_exhausted-Sound}

-- The calls that write, with the clock at each. The parts behind a read stand for themselves as
-- well: other calls may commit between the read and the write.
pub data Call : Type 0 where
  creates : (i : CreateInput) (now : Timestamp) → Call
  changes : (i : TransitionInput) (at : Timestamp) → Call
  writes : (i : TransitionInput) (current : TaskRecord) (at : Timestamp) → Call
  completes : (i : CompleteInput) (at : Timestamp) → Call
  claims : (i : ClaimInput) (now : Timestamp) (locked : Text → Bool) → Call
  fails : (now : Timestamp) → Call
  takes : (i : ClaimInput) (now : Timestamp) (locked : Text → Bool) (tenant : Text) → Call

-- The tables after a transaction: those before it, where it throws.
abbrev pub tables_after : {A : Type 0} → Database → Result StoreError (A × Database) → Database
tables_after db (ok r) = r.1
tables_after db (err e) = db

unfoldable pub run_call : Call → Database → Database
run_call (creates i now) db = tables_after db (create_idempotent i now db)
run_call (changes i at) db = tables_after db (transition i at db)
run_call (writes i current at) db = tables_after db (write_transition i current at db)
run_call (completes i at) db = tables_after db (insert_artifact_and_complete i at db)
run_call (claims i now locked) db = tables_after db (claim_next i now locked db)
run_call (fails now) db = tables_after db (fail_exhausted now db)
run_call (takes i now locked tenant) db = tables_after db (claim_of_tenant i now locked tenant db)

unfoldable pub run_calls : List Call → Database → Database
unfolding run_call
run_calls [] db = db
run_calls (c ∷ cs) db = run_calls cs (run_call c db)

tables_after-Sound :
    {A : Type 0} (m : Tx A) (db : Database)
    → Sound db
    → Ensures IsSound m db
    → Sound (tables_after db (m db))
tables_after-Sound {A = A} m db s h = left (m db) refl
  where
    left : (r : Result StoreError (A × Database)) → m db ≡ r → Sound (tables_after db r)
    left (err e) k = s
    left (ok (a, d)) k = h.at a d k

run_call-Sound : (c : Call) (db : Database) → Sound db → Sound (run_call c db)
unfolding run_call
run_call-Sound (creates i now) db s = tables_after-Sound _ db s (create_idempotent-Sound i now db s)
run_call-Sound (changes i at) db s = tables_after-Sound _ db s (transition-Sound i at db s)
run_call-Sound (writes i t at) db s = tables_after-Sound _ db s (write_transition-Sound i t at db s)
run_call-Sound (completes i at) db s =
    tables_after-Sound _ db s (insert_artifact_and_complete-Sound i at db s)
run_call-Sound (claims i now locked) db s =
    tables_after-Sound _ db s (claim_next-Sound i now locked db s)
run_call-Sound (fails now) db s = tables_after-Sound _ db s (fail_exhausted-Sound now db s)
run_call-Sound (takes i now locked tenant) db s =
    tables_after-Sound _ db s (claim_of_tenant-Sound i now locked tenant db s)

-- Any sequence of calls and of parts of calls keeps sound tables sound: every task row passes its
-- schema, no two tasks share an identifier, at most one task of a session runs, an idempotency
-- key names one existing task, and a task has at most one artifact.
pub run_calls-Sound : (cs : List Call) (db : Database) → Sound db → Sound (run_calls cs db)
unfolding run_calls
run_calls-Sound [] db s = s
run_calls-Sound (c ∷ cs) db s = run_calls-Sound cs (run_call c db) (run_call-Sound c db s)
