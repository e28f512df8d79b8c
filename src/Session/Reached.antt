-- ===== src/Session/Reached.antt =====
-- database/postgres-session-repository.ts: the answers of a transition, and where they have come to.
use surfgate.Common.{
  ℕ, ◌+◌, ◌≡◌, refl, sym, ap, subst, ◌∙◌, ◌⊎◌, inl, inr, some, ok, arith, Option-cases,
}
use surfgate.Common.Results.{bind-ok, guard-ok}
use surfgate.Contracts.Text.{Text}
use surfgate.Session.Record.{
  Session, SessionStatus, pending, routing, allocating, fallback_allocating, active, terminating,
  terminated, expired, failed, parse_session,
}
use surfgate.Session.Transition.{
  SessionEvent, invalid_transition, schema_error, begin_routing, begin_allocation,
  begin_fallback_allocation, activate, retain_for_cleanup, request_termination,
  complete_termination, expire, fail, moved, ended, bump_version, next, parsed, apply_request,
  dispatch, apply_other, apply_event, apply_session_transition,
}
use surfgate.Session.Repository.{
  SessionAnswer, unchanged_session, updated_session, session_of, session_from_row,
}

-- The status that an event of the reconciler leads to, whoever has brought the session there.
abbrev pub Reaches : SessionEvent → Session → Type 0
Reaches (fail at reason) u = u.status ≡ failed
Reaches (complete_termination at reason) u = u.status ≡ terminated
Reaches (request_termination at) u =
    (u.status ≡ terminating) ⊎ (u.status ≡ terminated) ⊎ (u.status ≡ expired) ⊎ (u.status ≡ failed)
Reaches e u = Unit {0}

-- A row that had the version that the caller has read, and the state that the event leads to from
-- there.
pub record UpdatedBy (version : ℕ) (e : SessionEvent) (u : Session) : Type 0 where
  pub current : Session
  pub next : Session
  pub expected : current.version ≡ version
  pub allowed : apply_session_transition current e ≡ ok next
  pub status : u.status ≡ next.status
  pub reference : u.provider_session_reference_encrypted ≡ next.provider_session_reference_encrypted
  pub reason : u.termination_reason ≡ next.termination_reason
  pub ended_at : u.terminated_at ≡ next.terminated_at
  pub counted : u.version ≡ next.version

-- A row that the event leaves at its version.
pub record Settled (e : SessionEvent) (u : Session) : Type 0 where
  pub next : Session
  pub allowed : apply_session_transition u e ≡ ok next
  pub same_version : next.version ≡ u.version

abbrev pub AnsweredBy : ℕ → SessionEvent → SessionAnswer → Type 0
AnsweredBy version e (unchanged_session u) = Settled e u
AnsweredBy version e (updated_session u) = UpdatedBy version e u

parse_session_same : (s u : Session) → parse_session s ≡ some u → s ≡ u
unfolding parse_session
parse_session_same s u h = ground arith

pub session_from_row_same : (row u : Session) → session_from_row row ≡ ok u → row ≡ u
session_from_row_same row u h = elim (Option-cases (parse_session row)) [
  | inl n ↦ absurd (ground (arith, n))
  | inr (v, k) ↦ parse_session_same row u (k ∙ ap (λ x. some x) (ground (arith, k)))
]

next_same : (s u : Session) → next s ≡ ok u → u ≡ bump_version s
unfolding next
next_same s u h = elim (Option-cases (parse_session (bump_version s))) [
  | inl n ↦ absurd (ground (arith, n))
  | inr (v, k) ↦
      sym (parse_session_same (bump_version s) u (k ∙ ap (λ x. some x) (ground (arith, k))))
]

parsed_same : (s v : Session) → parsed (parse_session s) ≡ ok v → s ≡ v
parsed_same s v h = elim (Option-cases (parse_session s)) [
  | inl n ↦ absurd (ground (arith, n))
  | inr (u, k) ↦ parse_session_same s v (k ∙ ap (λ x. some x) (ground (arith, k)))
]

-- An accepted event has been applied to the session.
applied_event :
    (s w : Session) (e : SessionEvent)
    → apply_session_transition s e ≡ ok w
    → apply_event e s ≡ ok w
unfolding apply_session_transition
applied_event s w e h =
    let (v, e1, h1) = bind-ok (parsed (parse_session s)) _ w h in
    let (valid, h2) = guard-ok _ schema_error _ w h1 in
    subst (λ x. apply_event e x ≡ ok w) (sym (parsed_same s v e1)) h2

failed_by :
    (s w : Session) (at : ℕ) (reason : Text)
    → apply_session_transition s (fail at reason) ≡ ok w
    → w ≡ bump_version (ended s failed at reason)
unfolding apply_event apply_other
failed_by s w at reason h =
    let (later, h1) = guard-ok _ invalid_transition _ w (applied_event s w (fail at reason) h) in
    let (alive, h2) = guard-ok _ invalid_transition _ w h1 in
    next_same (ended s failed at reason) w h2

completed_from :
    (status : SessionStatus) (s w : Session) (at : ℕ) (reason : Text)
    → dispatch status (complete_termination at reason) s ≡ ok w
    → w ≡ bump_version (ended s terminated at reason)
unfolding dispatch
completed_from terminating s w at reason h = next_same (ended s terminated at reason) w h
completed_from pending s w at reason h = cc
completed_from routing s w at reason h = cc
completed_from allocating s w at reason h = cc
completed_from fallback_allocating s w at reason h = cc
completed_from active s w at reason h = cc
completed_from terminated s w at reason h = cc
completed_from expired s w at reason h = cc
completed_from failed s w at reason h = cc

completed_by :
    (s w : Session) (at : ℕ) (reason : Text)
    → apply_session_transition s (complete_termination at reason) ≡ ok w
    → w ≡ bump_version (ended s terminated at reason)
unfolding apply_event apply_other
completed_by s w at reason h =
    let (later, h1) =
      guard-ok _ invalid_transition _ w (applied_event s w (complete_termination at reason) h) in
    completed_from s.status s w at reason h1

abbrev Ending : SessionStatus → Type 0
Ending t = (t ≡ terminating) ⊎ (t ≡ terminated) ⊎ (t ≡ expired) ⊎ (t ≡ failed)

-- A request for termination is answered by a session that is ending, and changes only one that
-- was not.
requested_from :
    (status : SessionStatus) (s w : Session) (at : ℕ)
    → s.status ≡ status
    → apply_request status s at ≡ ok w
    → Ending w.status × (w.version ≡ s.version → Ending s.status)
unfolding apply_request
requested_from terminating s w at e h =
    let same : s ≡ w = ground arith in (inl (ap (λ x. x.status) (sym same) ∙ e), λ v. inl e)
requested_from terminated s w at e h =
    let same : s ≡ w = ground arith in
    (inr (inl (ap (λ x. x.status) (sym same) ∙ e)), λ v. inr (inl e))
requested_from expired s w at e h =
    let same : s ≡ w = ground arith in
    (inr (inr (inl (ap (λ x. x.status) (sym same) ∙ e))), λ v. inr (inr (inl e)))
requested_from failed s w at e h =
    let same : s ≡ w = ground arith in
    (inr (inr (inr (ap (λ x. x.status) (sym same) ∙ e))), λ v. inr (inr (inr e)))
requested_from active s w at e h =
    let (later, h1) = guard-ok _ invalid_transition _ w h in
    let same : w ≡ bump_version (moved s terminating at) =
      next_same (moved s terminating at) w h1 in
    (
      inl (ap (λ x. x.status) same),
      λ v. absurd (grows s.version (sym (ap (λ x. x.version) same) ∙ v)),
    )
  where
    grows : (n : ℕ) → n + 1 ≡ n → ⊥
    grows n e = omega arith
requested_from pending s w at e h = cc
requested_from routing s w at e h = cc
requested_from allocating s w at e h = cc
requested_from fallback_allocating s w at e h = cc

requested_by :
    (s w : Session) (at : ℕ)
    → apply_session_transition s (request_termination at) ≡ ok w
    → Ending w.status × (w.version ≡ s.version → Ending s.status)
unfolding apply_event
requested_by s w at h =
    requested_from s.status s w at refl (applied_event s w (request_termination at) h)

no_growth : (n m : ℕ) → m ≡ n + 1 → m ≡ n → ⊥
no_growth n m h k = omega arith

pub AnsweredBy-Reaches :
    (version : ℕ) (e : SessionEvent) (a : SessionAnswer)
    → AnsweredBy version e a
    → Reaches e (session_of a)
AnsweredBy-Reaches n (fail at r) (unchanged_session u) b = absurd (
    no_growth u.version b.next.version (ap (λ x. x.version) (failed_by u b.next at r b.allowed))
      b.same_version)
AnsweredBy-Reaches n (fail at r) (updated_session u) b =
    b.status ∙ ap (λ x. x.status) (failed_by b.current b.next at r b.allowed)
AnsweredBy-Reaches n (complete_termination at r) (unchanged_session u) b = absurd (
    no_growth u.version b.next.version (ap (λ x. x.version) (completed_by u b.next at r b.allowed))
      b.same_version)
AnsweredBy-Reaches n (complete_termination at r) (updated_session u) b =
    b.status ∙ ap (λ x. x.status) (completed_by b.current b.next at r b.allowed)
AnsweredBy-Reaches n (request_termination at) (unchanged_session u) b =
    (requested_by u b.next at b.allowed).1 b.same_version
AnsweredBy-Reaches n (request_termination at) (updated_session u) b =
    subst Ending (sym b.status) (requested_by b.current b.next at b.allowed).0
AnsweredBy-Reaches n (begin_routing at) a b = tt
AnsweredBy-Reaches n (begin_allocation at r p d) a b = tt
AnsweredBy-Reaches n (begin_fallback_allocation at r p d) a b = tt
AnsweredBy-Reaches n (activate at x r) a b = tt
AnsweredBy-Reaches n (retain_for_cleanup at x r) a b = tt
AnsweredBy-Reaches n (expire at r) a b = tt
