-- ===== src/Router/Fallback/Transition.antt =====
-- router/src/fallback.ts: the events of an allocation and `transitionFallbackState`.
use surfgate.Common.{
  Bool, false, ◌&&◌, not, Option, none, some, List, [], ◌∷◌, if◌then◌else◌, nat_eq, Result, ok, err,
  is_some,
}
use surfgate.Contracts.Text.{text_eq}
use surfgate.Router.Reason.{
  ReasonCode, no_compatible_runtime, fallback_eligible, fallback_not_eligible, fallback_disabled,
  fallback_candidate_unavailable, fallback_same_runtime, fallback_from_runtime,
  fallback_limit_reached,
}
use surfgate.Router.Identity.{CandidateIdentity, parse_identity}
use surfgate.Router.Fallback.Classify.{
  FailureClass, no_compatible_candidate, classify_fallback_failure,
}
use surfgate.Router.Fallback.State.{
  FallbackPolicy, is_policy, FallbackState, requested, routed, allocating, fallback_routed,
  fallback_allocating, active, failed, same_id, same_runtime, parse_state,
}
use surfgate.Common.{◌>>=◌, ◌>>◌, guard}

pub data FallbackEvent : Type 0 where
  route_selected : (candidate : CandidateIdentity) → FallbackEvent
  route_failed allocation_started allocation_succeeded : FallbackEvent
  allocation_failed : (failure : FailureClass) (fallback : Option CandidateIdentity) → FallbackEvent

-- `FallbackEventSchema`
unfoldable pub parse_event : FallbackEvent → Option FallbackEvent
parse_event (route_selected c) = elim (parse_identity c) [
  | none ↦ none
  | some c' ↦ some (route_selected c')
]
parse_event route_failed = some route_failed
parse_event allocation_started = some allocation_started
parse_event allocation_succeeded = some allocation_succeeded
parse_event (allocation_failed f none) = some (allocation_failed f none)
parse_event (allocation_failed f (some c)) = elim (parse_identity c) [
  | none ↦ none
  | some c' ↦ some (allocation_failed f (some c'))
]

-- The `ZodError` of a schema, or the `Error` of an event that the state does not take.
pub data FallbackError : Type 0 where
  schema_error invalid_transition : FallbackError

abbrev pub parsed {ℓ} : {A : Type ℓ} → Option A → Result FallbackError A
parsed none = err schema_error
parsed (some a) = ok a

-- `FallbackStateSchema.parse`
unfoldable pub stored : FallbackState → Result FallbackError FallbackState
stored s = parsed (parse_state s)

-- `createFallbackState`
unfoldable pub create_fallback_state : FallbackPolicy → Result FallbackError FallbackState
create_fallback_state p = do guard (is_policy p) schema_error; stored (requested p)

-- `canFallback`
abbrev pub can_fall_back :
    FallbackPolicy → FailureClass → CandidateIdentity → Option CandidateIdentity → Bool
can_fall_back p f c none = false
can_fall_back p f c (some d) =
    (classify_fallback_failure f).eligible
    && p.allowed
    && nat_eq p.maximum_cross_runtime_fallbacks 1
    && not (same_id d c)
    && not (same_runtime d c)

-- The reasons of a primary failure that ends the allocation.
unfoldable pub refusal_reasons :
    FallbackPolicy → FailureClass → Option CandidateIdentity → List ReasonCode
refusal_reasons p f d =
    if not (classify_fallback_failure f).eligible
    then (classify_fallback_failure f).reason_codes
    else if not p.allowed
    then fallback_not_eligible ∷ fallback_disabled ∷ []
    else if not (is_some d)
    then fallback_not_eligible ∷ fallback_candidate_unavailable ∷ []
    else fallback_not_eligible ∷ fallback_same_runtime ∷ []

-- The state after the primary allocation has failed.
unfoldable pub after_failure :
    CandidateIdentity
    → CandidateIdentity
    → FallbackPolicy
    → FailureClass
    → Option CandidateIdentity
    → FallbackState
after_failure c a p f none = failed (a ∷ []) 0 p none f (refusal_reasons p f none)
after_failure c a p f (some d) =
    if can_fall_back p f c (some d)
    then fallback_routed c d c d p f (fallback_eligible ∷ fallback_from_runtime ∷ [])
    else failed (a ∷ []) 0 p none f (refusal_reasons p f (some d))

-- The branches of `transitionFallbackState`.
unfoldable pub transition : FallbackState → FallbackEvent → Result FallbackError FallbackState
transition (requested p) (route_selected c) = stored (routed c c p)
transition (requested p) route_failed = stored (
    failed [] 0 p none no_compatible_candidate (fallback_not_eligible ∷ no_compatible_runtime ∷ []))
transition (routed c a p) allocation_started = stored (allocating c a p)
transition (fallback_routed o c a b p f rs) allocation_started =
    stored (fallback_allocating o c a b p f rs)
transition (allocating c a p) allocation_succeeded = stored (active c (a ∷ []) 0 p none)
transition (allocating c a p) (allocation_failed f d) = stored (after_failure c a p f d)
transition (fallback_allocating o c a b p f rs) allocation_succeeded =
    stored (active c (a ∷ b ∷ []) 1 p (some f))
transition (fallback_allocating o c a b p f rs) (allocation_failed g d) =
    stored
      (failed (a ∷ b ∷ []) 1 p (some f) g (fallback_not_eligible ∷ fallback_limit_reached ∷ []))
transition _ _ = err invalid_transition

-- `transitionFallbackState`
unfoldable pub transition_fallback_state :
    FallbackState → FallbackEvent → Result FallbackError FallbackState
transition_fallback_state raw_state raw_event = do
  s ← parsed (parse_state raw_state)
  e ← parsed (parse_event raw_event)
  transition s e
