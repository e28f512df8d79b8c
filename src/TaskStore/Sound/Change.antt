-- ===== src/TaskStore/Sound/Change.antt =====
-- task-postgres/src/repository.ts: the invariant under `transition` and `insertArtifactAndComplete`.
use surfgate.Common.{ℕ, ◌≡◌, refl, true, false, ==-iff, Option, some, ◌∷◌, any, arith}
use surfgate.Common.Rows.{any-Forall}
use surfgate.Contracts.Text.{Text, text_eq}
use surfgate.Contracts.Tasks.{Timestamp}
use surfgate.Task.Record.{TaskRecord}
use surfgate.Task.Transition.{apply_task_transition}
use surfgate.TaskStore.Artifact.{ArtifactRecord}
use surfgate.TaskStore.Transaction.{
  Database, Ensures, Ensures-answer, Ensures-bind, Ensures-lift, Ensures-throw_unless,
  Ensures-check, Ensures-modify, Ensures-if, Ensures-written, answer,
}
use surfgate.TaskStore.Database.{
  update_row, insert_artifact, insert_new_artifact, owns, same_task, find_with, append_task_audit,
}
use surfgate.TaskStore.Change.{
  TransitionInput, CompleteInput, persisted_event, unchanged, set_columns, set_completed, required,
  write_transition, transition, insert_artifact_and_complete,
}
use surfgate.TaskStore.Sound.{
  Sound, Updated, update_row-Sound, IsSound, audited_Sound, Ensures-required, find_with-Sound,
}

unchanged-id :
    (tenant id : Text) (version : ℕ) (token : Option Text) (t : TaskRecord)
    → unchanged tenant id version token t ≡ true
    → t.id ≡ id
unchanged-id tenant id version token t h = (==-iff t.id id).0 (ground arith)

pub write_transition-Sound :
    (i : TransitionInput) (current : TaskRecord) (at : Timestamp) (db : Database)
    → Sound db
    → Ensures IsSound (write_transition i current at) db
unfolding write_transition append_task_audit
write_transition-Sound i current at db s = Ensures-throw_unless _ db _ _ _ λ same.
    Ensures-lift _ (persisted_event i.event at) _ db λ event e1.
      Ensures-lift _ (apply_task_transition current event) _ db λ next e2.
        Ensures-bind _ Updated (update_row _ _) _ db
          (update_row-Sound _ (set_columns next) i.task_id (unchanged-id _ _ _ _)
            (λ t. (refl, refl, refl)) db s)
          (λ rows d h.
            Ensures-required _ rows d _ h
              (λ t s. Ensures-modify _ d _ _ (Ensures-answer _ _ _ (audited_Sound d _ s))))

pub transition-Sound :
    (i : TransitionInput) (at : Timestamp) (db : Database)
    → Sound db
    → Ensures IsSound (transition i at) db
unfolding transition
transition-Sound i at db s =
    Ensures-bind _ IsSound (find_with i.tenant_id i.task_id) _ db (find_with-Sound _ _ db s)
      (λ found d s.
        Ensures-lift _ (required found) _ d λ current e. write_transition-Sound i current at d s)

insert_artifact-Sound :
    (a : ArtifactRecord) (db : Database) → Sound db → Ensures IsSound (insert_artifact a) db
unfolding insert_artifact insert_new_artifact
insert_artifact-Sound a db s = record {
  at =
      (Ensures-if IsSound db (answer tt) (λ d. any (same_task a) d.artifacts)
        (insert_new_artifact a) (λ e. Ensures-answer _ _ _ s)
        (λ free.
          Ensures-check _ db _ _ _
            λ e. Ensures-check _ db _ _ _ λ known. Ensures-written _ _ db (added free known))).at;
}
  where
    added :
        any (same_task a) db.artifacts ≡ false
        → any (owns a) db.tasks ≡ true
        → Sound (record db { artifacts = a ∷ db.artifacts })
    added free known = record {
      stored = s.stored;
      apart = s.apart;
      named = s.named;
      referenced = s.referenced;
      one_artifact = (any-Forall _ db.artifacts free, s.one_artifact);
      owned = (known, s.owned);
    }

pub insert_artifact_and_complete-Sound :
    (i : CompleteInput) (at : Timestamp) (db : Database)
    → Sound db
    → Ensures IsSound (insert_artifact_and_complete i at) db
unfolding insert_artifact_and_complete append_task_audit
insert_artifact_and_complete-Sound i at db s = Ensures-throw_unless _ db _ _ _ λ e1.
    Ensures-throw_unless _ db _ _ _ λ e2. Ensures-lift _ _ _ db λ r e3.
      Ensures-lift _ _ _ db λ r e4.
        Ensures-bind _ IsSound (insert_artifact _) _ db (insert_artifact-Sound _ db s) λ u d s.
          Ensures-lift _ _ _ d λ next e5.
            Ensures-bind _ Updated (update_row _ _) _ d
              (update_row-Sound _ (set_completed next) i.task.id
                (unchanged-id _ _ _ (some i.claim_token)) (λ t. (refl, refl, refl)) d s)
              (λ rows d h. Ensures-required _ rows d _ h λ t s.
                Ensures-modify _ d _ _
                  (Ensures-modify _ _ _ _ (Ensures-answer _ _ _ (audited_Sound d _ s))))
