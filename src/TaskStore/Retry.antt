-- ===== src/TaskStore/Retry.antt =====
-- task-postgres/src/repository.ts: a creation that is sent again.
use surfgate.Common.{
  ◌≡◌, refl, ◌∙◌, ap, true, ◌==◌, ==-iff, some, any, ok, arith, if◌then◌else◌, passes,
  passes-AllTrue, Option-cases, Bool-cases, inl, inr,
}
use surfgate.Common.Rows.{first_row, any_stronger}
use surfgate.Contracts.Text.{Text, text_eq}
use surfgate.Contracts.Ids.{is_task_id}
use surfgate.Contracts.Tasks.{Timestamp, parse_request}
use surfgate.Task.Record.{TaskRecord, parse_task, identity_checks}
use surfgate.Task.Transition.{parsed}
use surfgate.TaskStore.Transaction.{Database, answer, lift, throw_unless, ◌>>=◌}
use surfgate.TaskStore.Database.{has_key, find_with, task_of_row, task_from_row}
use surfgate.TaskStore.Create.{
  CreateInput, TaskCreateClaim, created, existing, conflict, refers_to, idempotency_row,
  claimed_before, create_idempotent,
}
use surfgate.TaskStore.Effects.{parsed-SameBut}
use surfgate.TaskStore.Idempotent.{Created, row_of, create_idempotent-Outcome}

same_text : (t : Text) → (t == t) ≡ true
same_text t = (==-iff t t).1 refl

-- Where two requests name the same key, the answer to the second.
abbrev pub repeated : CreateInput → CreateInput → TaskRecord → TaskCreateClaim
repeated i j t = if i.request_hash == j.request_hash then existing t else conflict

parsed_id : (t u : TaskRecord) → parsed (parse_task t) ≡ ok u → is_task_id t.id ≡ true
unfolding parse_task
parsed_id t u h = elim (Bool-cases (passes (identity_checks t))) [
  | inl e ↦ (passes-AllTrue (identity_checks t) e).0
  | inr e ↦ absurd (ground (arith, e, Option-cases (parse_request t.request)))
]

module _ (i : CreateInput) (db : Database) (t : TaskRecord) (d : Database)
    (c : Created i db t d) where
  same_id : t.id ≡ c.row.id
  same_id = ap (λ x. x.id) (parsed-SameBut c.row t c.reads).1

  -- The row that the key refers to is the new one, whose identifier no other row has.
  head_refers : refers_to (row_of i t) c.row ≡ true
  unfolding any
  head_refers =
      let others =
        any_stronger (refers_to (row_of i t)) (λ u. u.id == c.row.id) db.tasks
          (λ u e. (==-iff u.id c.row.id).1 ((==-iff u.id t.id).0 (ground (arith, e)) ∙ same_id))
          c.new in
      ground (arith, c.known, others)

  head_first : first_row (has_key i.tenant_id t.id) d.tasks ≡ some c.row
  unfolding first_row
  head_first = rw c.tasks (ground (arith, head_refers))

  found_again : find_with i.tenant_id t.id d ≡ ok (some t, d)
  unfolding find_with task_of_row task_from_row answer lift ◌>>=◌
  found_again = rw (head_first, c.reads) refl

  valid_id : is_task_id t.id ≡ true
  valid_id = rw same_id (parsed_id c.row t c.reads)

  claimed_again :
      (hash : Text)
      → claimed_before i.tenant_id hash (row_of i t) d
        ≡ ok ((if i.request_hash == hash then existing t else conflict), d)
  unfolding claimed_before throw_unless answer ◌>>=◌
  claimed_again hash = elim (Bool-cases (i.request_hash == hash)) [
    | inl e ↦ rw (e, valid_id, ◌>>=◌, found_again) refl
    | inr e ↦ rw e refl
  ]

  key_found :
      idempotency_row i.tenant_id i.session_id i.idempotency_key d.idempotency ≡ some (row_of i t)
  unfolding idempotency_row first_row
  key_found =
      rw (c.keyed, same_text i.tenant_id, same_text i.session_id, same_text i.idempotency_key) refl

-- A creation that is sent again with the same key, at any time, creates nothing: with the same
-- request it answers the task that the first has created, with another request `conflict`.
pub create_idempotent_again :
    (i j : CreateInput) (now later : Timestamp) (db d : Database) (t : TaskRecord)
    → j.tenant_id ≡ i.tenant_id
    → j.session_id ≡ i.session_id
    → j.idempotency_key ≡ i.idempotency_key
    → create_idempotent i now db ≡ ok (created t, d)
    → create_idempotent j later d ≡ ok (repeated i j t, d)
unfolding create_idempotent
create_idempotent_again i j now later db d t tenant session key first =
    let (room, c) = (create_idempotent-Outcome i now db).at (created t) d first in
    rw (tenant, session, key, key_found i db t d c) (claimed_again i db t d c j.request_hash)
