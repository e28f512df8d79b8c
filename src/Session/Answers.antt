-- ===== src/Session/Answers.antt =====
-- database/postgres-session-repository.ts: what a transition of a stored session has answered.
use surfgate.Common.{
  ℕ, ◌≡◌, refl, sym, ap, subst, inl, inr, Bool, true, false, Bool-cases, Option, none, some, nat_eq,
  nat_eq_iff, if◌then◌else◌, Result, ok, err, arith,
}
use surfgate.Common.Results.{bind-ok, guard-ok}
use surfgate.Contracts.Text.{Text}
use surfgate.Contracts.Ids.{is_tenant_id, is_session_id}
use surfgate.Session.Record.{Session}
use surfgate.Session.Transition.{
  SessionEvent, SessionError, invalid_transition, schema_error, next, apply_session_transition,
}
use surfgate.Session.Repository.{
  RepositoryError, thrown, SessionReads, SessionAnswer, unchanged_session, updated_session,
  session_from_row, find_session, applied, resolved, resolve_conflict, set_session_columns,
  updated_row, written, write_session, apply_to_current, transition_session_for_tenant,
}
use surfgate.Session.Reached.{AnsweredBy, session_from_row_same}

abbrev answered_ok : SessionAnswer → Result RepositoryError SessionAnswer
answered_ok a = ok a

same_answer : (a b : SessionAnswer) → answered_ok a ≡ answered_ok b → a ≡ b
same_answer a b h = ground arith

module _ (version : ℕ) (e : SessionEvent) where
  -- A conflict that is resolved changes nothing.
  resolved-AnsweredBy :
      (u : Session) (r : Result SessionError Session) (a : SessionAnswer)
      → apply_session_transition u e ≡ r
      → resolved u r ≡ ok a
      → AnsweredBy version e a
  resolved-AnsweredBy u (ok w) a same h = elim (Bool-cases (nat_eq w.version u.version)) [
    | inl t ↦
        subst (AnsweredBy version e) (same_answer (unchanged_session u) a (ground (arith, t, h)))
          (record { next = w; allowed = same; same_version = (nat_eq_iff _ _).0 t })
    | inr t ↦ absurd (ground (arith, t, h))
  ]
  resolved-AnsweredBy u (err invalid_transition) a same h = cc
  resolved-AnsweredBy u (err schema_error) a same h = cc

  resolve_conflict-AnsweredBy :
      (u : Session) (a : SessionAnswer) → resolve_conflict u e ≡ ok a → AnsweredBy version e a
  unfolding resolve_conflict
  resolve_conflict-AnsweredBy u a h = resolved-AnsweredBy u (apply_session_transition u e) a refl h

  module _ (r : SessionReads) (current next : Session) (expected : current.version ≡ version)
      (allowed : apply_session_transition current e ≡ ok next) where
    competing-AnsweredBy : (a : SessionAnswer) → written r e none ≡ ok a → AnsweredBy version e a
    competing-AnsweredBy a h =
        let (u, k, h1) = bind-ok (find_session r.at_second_read) _ a h in
        resolve_conflict-AnsweredBy u a h1

    returned-AnsweredBy :
        (row : Session) (a : SessionAnswer)
        → written r e (some (set_session_columns next row)) ≡ ok a
        → AnsweredBy version e a
    returned-AnsweredBy row a h =
        let (u, k, h1) = bind-ok (session_from_row (set_session_columns next row)) _ a h in
        let same : set_session_columns next row ≡ u = session_from_row_same _ u k in
        subst (AnsweredBy version e) (same_answer (updated_session u) a h1) (record {
          current = current;
          next = next;
          expected = expected;
          allowed = allowed;
          status = ap (λ x. x.status) (sym same);
          reference = ap (λ x. x.provider_session_reference_encrypted) (sym same);
          reason = ap (λ x. x.termination_reason) (sym same);
          ended_at = ap (λ x. x.terminated_at) (sym same);
          counted = ap (λ x. x.version) (sym same);
        })

    matched-AnsweredBy :
        (matches : Bool) (row : Session) (a : SessionAnswer)
        → written r e (if matches then some (set_session_columns next row) else none) ≡ ok a
        → AnsweredBy version e a
    matched-AnsweredBy true row a h = returned-AnsweredBy row a h
    matched-AnsweredBy false row a h = competing-AnsweredBy a h

    written-AnsweredBy :
        (row : Option Session) (a : SessionAnswer)
        → written r e (updated_row current next row) ≡ ok a
        → AnsweredBy version e a
    written-AnsweredBy none a h = competing-AnsweredBy a h
    written-AnsweredBy (some row) a h = matched-AnsweredBy _ row a h

    write-AnsweredBy :
        (a : SessionAnswer) → write_session r e current next ≡ ok a → AnsweredBy version e a
    write-AnsweredBy a h = elim (Bool-cases (nat_eq next.version current.version)) [
      | inl t ↦
          subst (AnsweredBy version e)
            (same_answer (unchanged_session current) a (ground (arith, t, h)))
            (record { next = next; allowed = allowed; same_version = (nat_eq_iff _ _).0 t })
      | inr t ↦ written-AnsweredBy r.at_update a (rw t at h)
    ]

  applied_ok : (u w : Session) → applied u e ≡ ok w → apply_session_transition u e ≡ ok w
  applied_ok u w h = kept (apply_session_transition u e) h
    where
      kept :
          (x : Result SessionError Session)
          → elim x as (λ y. Result RepositoryError Session) [ ok v ↦ ok v | err y ↦ err (thrown y) ]
            ≡ ok w
          → x ≡ ok w
      kept (ok v) k = ground arith
      kept (err y) k = cc

-- What a transition of a stored session answers, whatever others commit meanwhile: the row with the
-- version that the caller has read, changed by the event, or a row that the event leaves at its
-- version.
pub transition-AnsweredBy :
    (r : SessionReads) (tenant session : Text) (version : ℕ) (e : SessionEvent) (a : SessionAnswer)
    → transition_session_for_tenant r tenant session version e ≡ ok a
    → AnsweredBy version e a
unfolding transition_session_for_tenant
transition-AnsweredBy r tenant session version e a h =
    let (t1, h1) = guard-ok (is_tenant_id tenant) _ _ a h in
    let (t2, h2) = guard-ok (is_session_id session) _ _ a h1 in
    let (current, found, h3) = bind-ok (find_session r.at_read) _ a h2 in
    elim (Bool-cases (nat_eq current.version version)) [
      | inl t ↦
          let h4 : apply_to_current r e current ≡ ok a = rw t at h3 in
          let (next, allowed, h5) = bind-ok (applied current e) _ a h4 in
          write-AnsweredBy version e r current next ((nat_eq_iff _ _).0 t)
            (applied_ok version e current next allowed) a h5
      | inr t ↦ resolve_conflict-AnsweredBy version e current a (rw t at h3)
    ]
