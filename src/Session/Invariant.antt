-- ===== src/Session/Invariant.antt =====
-- domain/session.ts: the invariant of a stored session, under each kind of change.
use surfgate.Common.{
  ◌≤◌, ◌<◌, ◌≡◌, refl, ◌⊎◌, Bool, true, false, Option, none, some, arith, is_some, all_option,
  AllTrue, AllTrue-passes, ok,
}
use surfgate.Contracts.Tasks.{Timestamp}
use surfgate.Contracts.Text.{Text, is_slug, is_reason}
use surfgate.Contracts.Ids.{is_routing_decision_id}
use surfgate.Task.Record.{max_safe_integer}
use surfgate.Session.Record.{
  Session, SessionStatus, pending, routing, allocating, fallback_allocating, active, terminating,
  is_protected_reference, is_terminal, is_active_lifecycle, parse_session, field_checks,
  consistency_checks,
}
use surfgate.Session.Transition.{bump_version, moved, routed, connected, ended, next}

abbrev pub is_allocating : SessionStatus → Bool
is_allocating allocating = true
is_allocating fallback_allocating = true
is_allocating _ = false

-- A session that its schema accepts, with a runtime and a provider chosen while it allocates.
pub record Inv (s : Session) : Type 0 where
  pub fields : AllTrue (field_checks s)
  pub consistent : AllTrue (consistency_checks s)
  pub chosen :
      is_allocating s.status ≡ true
      → (is_some s.selected_runtime ≡ true) × (is_some s.selected_provider ≡ true)

pub parse_session-Inv : (s : Session) → Inv s → parse_session s ≡ some s
unfolding parse_session
parse_session-Inv s v =
    rw
      (AllTrue-passes (field_checks s) v.fields, AllTrue-passes (consistency_checks s) v.consistent)

pub next-Inv : (s : Session) → Inv (bump_version s) → next s ≡ ok (bump_version s)
unfolding next
next-Inv s v = rw (parse_session-Inv _ v)

module _ (s : Session) (v : Inv s) (small : s.version < max_safe_integer) (at : Timestamp)
    (later : s.updated_at ≤ at) where
  pub moved-routing-Inv : s.status ≡ pending → Inv (bump_version (moved s routing at))
  moved-routing-Inv p = record {
    fields = ground arith;
    consistent = ground arith;
    chosen = λ e. cc;
  }

  pub moved-terminating-Inv : s.status ≡ active → Inv (bump_version (moved s terminating at))
  moved-terminating-Inv p = record {
    fields = ground arith;
    consistent = ground arith;
    chosen = λ e. cc;
  }

  pub routed-Inv :
      (to : SessionStatus) (runtime provider : Text) (decision : Option Text)
      → is_allocating to ≡ true
      → is_terminal s.status ≡ false
      → is_slug runtime ≡ true
      → is_slug provider ≡ true
      → all_option is_routing_decision_id decision ≡ true
      → Inv (bump_version (routed s to at runtime provider decision))
  routed-Inv to runtime provider none p live r q d = record {
    fields = ground arith;
    consistent = ground arith;
    chosen = λ e. (refl, refl);
  }
  routed-Inv to runtime provider (some x) p live r q d = record {
    fields = ground arith;
    consistent = ground arith;
    chosen = λ e. (refl, refl);
  }

  pub connected-Inv :
      (to : SessionStatus) (expires : Timestamp) (reference : Text)
      → (to ≡ active) ⊎ (to ≡ terminating)
      → is_allocating s.status ≡ true
      → at < expires
      → is_protected_reference reference ≡ true
      → Inv (bump_version (connected s to at expires reference))
  connected-Inv to expires reference p from ahead valid =
      let c = v.chosen from in
      record { fields = ground arith; consistent = ground arith; chosen = λ e. c }

  pub ended-Inv :
      (to : SessionStatus) (reason : Text)
      → is_terminal to ≡ true
      → (is_active_lifecycle to ≡ true → is_active_lifecycle s.status ≡ true)
      → is_reason reason ≡ true
      → Inv (bump_version (ended s to at reason))
  ended-Inv to reason p from valid = record {
    fields = ground arith;
    consistent = ground arith;
    chosen = λ e. ground arith;
  }
