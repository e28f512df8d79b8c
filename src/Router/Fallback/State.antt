-- ===== src/Router/Fallback/State.antt =====
-- router/src/fallback.ts: the states of an allocation and their schema.
use surfgate.Common.{
  ℕ, ◌+◌, Bool, false, ◌&&◌, ◌||◌, not, Option, none, some, List, [], ◌∷◌, if◌then◌else◌, leb,
  nat_eq, bool_eq, ◌==◌, all_distinct, all_option, is_some, length, last?, passes, map,
}
use surfgate.Common.Maybe.{◌>>=◌, ◌>>◌, accept}
use surfgate.Contracts.Text.{text_eq}
use surfgate.Router.Reason.{ReasonCode, reason_eq}
use surfgate.Router.Identity.{CandidateIdentity, parse_identity}
use surfgate.Router.Fallback.Classify.{FailureClass, is_fallback_eligible}

-- `RoutingFallbackPolicySchema` (routing-decision.ts)
pub record FallbackPolicy : Type 0 where
  pub allowed : Bool
  pub maximum_cross_runtime_fallbacks : ℕ

abbrev pub is_policy : FallbackPolicy → Bool
is_policy p =
    leb p.maximum_cross_runtime_fallbacks 1
    && bool_eq p.allowed (nat_eq p.maximum_cross_runtime_fallbacks 1)

-- `fallbacksUsed` is the literal 0 in the states `ROUTED` and `ALLOCATING`, and 1 in the two
-- states of a fallback; there it is no field.
pub data FallbackState : Type 0 where
  requested : (policy : FallbackPolicy) → FallbackState
  routed allocating :
      (current attempted : CandidateIdentity) (policy : FallbackPolicy) → FallbackState
  fallback_routed fallback_allocating :
      (original current first second : CandidateIdentity) (policy : FallbackPolicy)
      (primary : FailureClass) (reasons : List ReasonCode)
      → FallbackState
  active :
      (current : CandidateIdentity) (attempted : List CandidateIdentity) (used : ℕ)
      (policy : FallbackPolicy) (primary : Option FailureClass)
      → FallbackState
  failed :
      (attempted : List CandidateIdentity) (used : ℕ) (policy : FallbackPolicy)
      (primary : Option FailureClass) (failure : FailureClass) (reasons : List ReasonCode)
      → FallbackState

abbrev pub same_id : CandidateIdentity → CandidateIdentity → Bool
same_id a b = a.candidate_id == b.candidate_id

abbrev pub same_runtime : CandidateIdentity → CandidateIdentity → Bool
same_runtime a b = a.runtime_class == b.runtime_class

unfoldable pub parse_identities : List CandidateIdentity → Option (List CandidateIdentity)
parse_identities [] = some []
parse_identities (i ∷ is) = do j ← parse_identity i; js ← parse_identities is; some (j ∷ js)

-- The members of the union, without the checks on the whole.
unfoldable pub parse_shape : FallbackState → Option FallbackState
parse_shape (requested p) = do accept (is_policy p); some (requested p)
parse_shape (routed c a p) = do
  c' ← parse_identity c
  a' ← parse_identity a
  accept (is_policy p)
  some (routed c' a' p)
parse_shape (allocating c a p) = do
  c' ← parse_identity c
  a' ← parse_identity a
  accept (is_policy p)
  some (allocating c' a' p)
parse_shape (fallback_routed o c a b p f rs) = do
  o' ← parse_identity o
  c' ← parse_identity c
  a' ← parse_identity a
  b' ← parse_identity b
  accept (is_policy p && leb 1 (length rs) && all_distinct rs)
  some (fallback_routed o' c' a' b' p f rs)
parse_shape (fallback_allocating o c a b p f rs) = do
  o' ← parse_identity o
  c' ← parse_identity c
  a' ← parse_identity a
  b' ← parse_identity b
  accept (is_policy p && leb 1 (length rs) && all_distinct rs)
  some (fallback_allocating o' c' a' b' p f rs)
parse_shape (active c tried u p f) = do
  c' ← parse_identity c
  tried' ← parse_identities tried
  accept (leb 1 (length tried) && leb (length tried) 2 && leb u 1 && is_policy p)
  some (active c' tried' u p f)
parse_shape (failed tried u p f g rs) = do
  tried' ← parse_identities tried
  accept (leb (length tried) 2 && leb u 1 && is_policy p && leb 1 (length rs) && all_distinct rs)
  some (failed tried' u p f g rs)

-- The checks on the attempts, the count, the policy and the primary failure.
abbrev crosses : List CandidateIdentity → Bool
crosses (a ∷ b ∷ []) = not (same_runtime a b)
crosses _ = false

abbrev pub history_checks :
    List CandidateIdentity → ℕ → FallbackPolicy → Option FailureClass → List Bool
history_checks attempted used policy primary =
    all_distinct (map (λ i. i.candidate_id) attempted)
    ∷ not (
        not (leb used policy.maximum_cross_runtime_fallbacks)
        || (nat_eq used 1 && not policy.allowed))
    ∷ not (nat_eq used 1 && not (crosses attempted))
    ∷ all_option is_fallback_eligible primary
    ∷ []

-- `state.activeCandidate.candidateID !== state.attemptedCandidates.at(-1)?.candidateID`
abbrev is_last : CandidateIdentity → List CandidateIdentity → Bool
is_last c tried = elim (last? tried) [ none ↦ false | some a ↦ same_id c a ]

-- The `superRefine` of `FallbackStateSchema`.
abbrev pub state_checks : FallbackState → List Bool
state_checks (requested p) = []
state_checks (routed c a p) = same_id c a ∷ history_checks (a ∷ []) 0 p none
state_checks (allocating c a p) = same_id c a ∷ history_checks (a ∷ []) 0 p none
state_checks (fallback_routed o c a b p f rs) =
    same_id o a ∷ same_id c b ∷ history_checks (a ∷ b ∷ []) 1 p (some f)
state_checks (fallback_allocating o c a b p f rs) =
    same_id o a ∷ same_id c b ∷ history_checks (a ∷ b ∷ []) 1 p (some f)
state_checks (active c tried u p f) =
    nat_eq (length tried) (u + 1)
    ∷ is_last c tried
    ∷ bool_eq (nat_eq u 1) (is_some f)
    ∷ history_checks tried u p f
state_checks (failed tried u p f g rs) =
    (if nat_eq u 1 then nat_eq (length tried) 2 else leb (length tried) 1)
    ∷ bool_eq (nat_eq u 1) (is_some f)
    ∷ history_checks tried u p f

-- `FallbackStateSchema.safeParse`
unfoldable pub parse_state : FallbackState → Option FallbackState
parse_state raw = do s ← parse_shape raw; accept (passes (state_checks s)); some s
