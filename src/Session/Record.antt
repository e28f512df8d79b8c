-- ===== src/Session/Record.antt =====
-- domain/session.ts: the record of a session and its schema.
use mathlib.Core.List.{reverse}
use surfgate.Common.{
  ℕ, Bool, true, false, not, ◌&&◌, ◌||◌, Option, none, some, List, [], ◌∷◌, leb, ltb, nat_eq,
  length, all, passes, all_option, bool_eq, is_some, if◌then◌else◌,
}
use surfgate.Contracts.Text.{
  Text, codes, strip_prefix, length_within, is_word, is_alnum, is_slug, is_reason, span,
}
use surfgate.Contracts.Ids.{is_tenant_id, is_session_id, is_routing_decision_id}
use surfgate.Contracts.Capabilities.{Requirements}
use surfgate.Contracts.Tasks.{Timestamp}
use surfgate.Task.Record.{max_safe_integer}

pub data SessionStatus : Type 0 where
  pending routing allocating fallback_allocating active terminating terminated expired failed :
      SessionStatus

pub record Session : Type 0 where
  pub id : Text
  pub tenant_id : Text
  pub status : SessionStatus
  pub requested_capabilities : Requirements
  pub selected_runtime : Option Text
  pub selected_provider : Option Text
  pub provider_session_reference_encrypted : Option Text
  pub routing_decision_id : Option Text
  pub created_at : Timestamp
  pub updated_at : Timestamp
  pub connected_at : Option Timestamp
  pub expires_at : Option Timestamp
  pub terminated_at : Option Timestamp
  pub termination_reason : Option Text
  pub version : ℕ

-- `psr.v1.` and a key identifier: `[A-Za-z0-9][A-Za-z0-9._-]{0,63}`.
is_reference_head : Option Text → Bool
unfolding all
is_reference_head none = false
is_reference_head (some []) = false
is_reference_head (some (c ∷ t)) =
    is_alnum c && leb (length t) 63 && all (λ d. is_word d || nat_eq d b'.') t

-- A last segment of word characters whose length passes the test, the dot before it, and what
-- the rest has to be. The text is read from its end.
cut_segment : (ℕ → Bool) → (Text → Bool) → Text × Text → Bool
cut_segment fits rest (u, []) = false
cut_segment fits rest (u, c ∷ v) = fits (length u) && nat_eq c b'.' && rest v

last_segment : (ℕ → Bool) → (Text → Bool) → Text → Bool
unfolding cut_segment span
last_segment fits rest t = cut_segment fits rest (span is_word t)

-- `/^psr\.v1\.[A-Za-z0-9][A-Za-z0-9._-]{0,63}\.[A-Za-z0-9_-]{16}\.[A-Za-z0-9_-]+\.[A-Za-z0-9_-]{22}$/u`,
-- with 24 to 32,768 characters.
unfoldable pub is_protected_reference : Text → Bool
unfolding last_segment is_reference_head strip_prefix
is_protected_reference t =
    length_within 24 32768 t
    && last_segment (λ n. nat_eq n 22)
        (last_segment (λ n. leb 1 n)
          (last_segment (λ n. nat_eq n 16)
            (λ u. is_reference_head (strip_prefix (codes "psr.v1.") (reverse u)))))
        (reverse t)

-- `['active', 'terminating', 'terminated', 'expired'].includes(status)`
abbrev pub is_active_lifecycle : SessionStatus → Bool
is_active_lifecycle active = true
is_active_lifecycle terminating = true
is_active_lifecycle terminated = true
is_active_lifecycle expired = true
is_active_lifecycle _ = false

-- `['terminated', 'expired', 'failed'].includes(status)`
abbrev pub is_terminal : SessionStatus → Bool
is_terminal terminated = true
is_terminal expired = true
is_terminal failed = true
is_terminal _ = false

abbrev pub field_checks : Session → List Bool
field_checks s =
    is_session_id s.id
    ∷ is_tenant_id s.tenant_id
    ∷ all_option is_slug s.selected_runtime
    ∷ all_option is_slug s.selected_provider
    ∷ all_option is_protected_reference s.provider_session_reference_encrypted
    ∷ all_option is_routing_decision_id s.routing_decision_id
    ∷ all_option is_reason s.termination_reason
    ∷ leb s.version max_safe_integer
    ∷ []

abbrev pub follows : Option Timestamp → Option Timestamp → Bool
follows (some c) (some e) = ltb c e
follows none e = true
follows (some c) none = true

-- The `superRefine` of the schema.
abbrev pub consistency_checks : Session → List Bool
consistency_checks s =
    leb s.created_at s.updated_at
    ∷ all_option (leb s.created_at) s.connected_at
    ∷ all_option (leb s.created_at) s.terminated_at
    ∷ not (
        is_active_lifecycle s.status
        && (not (is_some s.selected_runtime)
            || not (is_some s.selected_provider)
            || not (is_some s.provider_session_reference_encrypted)
            || not (is_some s.connected_at)
            || not (is_some s.expires_at)))
    ∷ bool_eq (is_terminal s.status) (is_some s.terminated_at && is_some s.termination_reason)
    ∷ follows s.connected_at s.expires_at
    ∷ []

-- `SessionSchema.safeParse`; the schema changes nothing.
unfoldable pub parse_session : Session → Option Session
parse_session s = if passes (field_checks s) && passes (consistency_checks s) then some s else none
