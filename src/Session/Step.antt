-- ===== src/Session/Step.antt =====
-- domain/session.ts: the transitions of a session as a relation, read off the events.
use surfgate.Common.{◌≤◌, ◌<◌, ◌≡◌, ◌⊎◌, true, false, Option}
use surfgate.Contracts.Tasks.{Timestamp}
use surfgate.Contracts.Text.{Text}
use surfgate.Session.Record.{
  Session, SessionStatus, pending, routing, allocating, fallback_allocating, active, terminating,
  terminated, expired, failed, is_terminal,
}
use surfgate.Session.Transition.{
  SessionEvent, begin_routing, begin_allocation, begin_fallback_allocation, activate,
  retain_for_cleanup, request_termination, complete_termination, expire, fail, bump_version, moved,
  routed, connected, ended,
}
use surfgate.Session.Invariant.{is_allocating}

-- A session that has been asked to end already.
abbrev pub IsEnding : SessionStatus → Type 0
IsEnding s = (s ≡ terminating) ⊎ (is_terminal s ≡ true)

pub data Step (s : Session) : SessionEvent → Session → Type 0 where
  route :
      (at : Timestamp)
      → s.status ≡ pending
      → s.updated_at ≤ at
      → Step s (begin_routing at) (bump_version (moved s routing at))
  allocate :
      (at : Timestamp) (runtime provider : Text) (decision : Option Text)
      → s.status ≡ routing
      → s.updated_at ≤ at
      → Step s
          (begin_allocation at runtime provider decision)
          (bump_version (routed s allocating at runtime provider decision))
  fall_back :
      (at : Timestamp) (runtime provider : Text) (decision : Option Text)
      → s.status ≡ allocating
      → s.updated_at ≤ at
      → Step s
          (begin_fallback_allocation at runtime provider decision)
          (bump_version (routed s fallback_allocating at runtime provider decision))
  connect :
      (at expires : Timestamp) (reference : Text)
      → is_allocating s.status ≡ true
      → s.updated_at ≤ at
      → at < expires
      → Step s
          (activate at expires reference)
          (bump_version (connected s active at expires reference))
  retain :
      (at expires : Timestamp) (reference : Text)
      → is_allocating s.status ≡ true
      → s.updated_at ≤ at
      → at < expires
      → Step s
          (retain_for_cleanup at expires reference)
          (bump_version (connected s terminating at expires reference))
  ask :
      (at : Timestamp)
      → s.status ≡ active
      → s.updated_at ≤ at
      → Step s (request_termination at) (bump_version (moved s terminating at))
  ask_again : (at : Timestamp) → IsEnding s.status → Step s (request_termination at) s
  complete :
      (at : Timestamp) (reason : Text)
      → s.status ≡ terminating
      → s.updated_at ≤ at
      → Step s (complete_termination at reason) (bump_version (ended s terminated at reason))
  run_out :
      (at : Timestamp) (reason : Text)
      → s.status ≡ active
      → s.updated_at ≤ at
      → Step s (expire at reason) (bump_version (ended s expired at reason))
  break_off :
      (at : Timestamp) (reason : Text)
      → is_terminal s.status ≡ false
      → s.updated_at ≤ at
      → Step s (fail at reason) (bump_version (ended s failed at reason))

-- A connection that would be over before it begins.
abbrev pub IsExpiredOffer : SessionEvent → Type 0
IsExpiredOffer (activate at x r) = x ≤ at
IsExpiredOffer (retain_for_cleanup at x r) = x ≤ at
IsExpiredOffer _ = ⊥
