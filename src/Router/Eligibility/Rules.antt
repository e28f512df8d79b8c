-- ===== src/Router/Eligibility/Rules.antt =====
-- router/src/eligibility.ts: `evaluateCandidateEligibility`, one function for each group of tests.
use surfgate.Common.{
  ℕ, Bool, true, false, ◌&&◌, ◌||◌, not, Option, none, some, List, [], ◌∷◌, ◌++◌, if◌then◌else◌,
  ltb, ◌==◌, includes,
}
use surfgate.Contracts.Text.{Text, text_eq, codes}
use surfgate.Contracts.Capabilities.{
  CapabilityName, webgl, video, persistent_auth, real_browser_tls, capability_names, SupportState,
  supported, unsupported, experimental, unknown, RequirementState, required, preferred,
  not_required, RuntimePreference, auto, kitesurf, chromium, is_usable,
}
use surfgate.Provider.Health.{
  HealthStatus, healthy, degraded, unavailable, CapacitySignal, exhausted,
}
use surfgate.Router.Reason.{
  ReasonCode, reason_eq, capabilities_satisfied, candidate_unhealthy, candidate_degraded,
  candidate_not_configured, candidate_forbidden_by_policy, runtime_forbidden_by_policy,
  runtime_preference_required, session_duration_unsupported, candidate_blocked_by_safety,
  required_capability_unsupported, requires_webgl, requires_video, requires_persistent_auth,
  requires_real_browser_tls, capability_unknown, capability_experimental_not_allowed,
  provider_capacity_exhausted,
}
use surfgate.Router.Candidate.{RoutingCandidate, SafetyStatus, allowed, blocked}
use surfgate.Router.Input.{RoutingInput, TenantPolicy}

-- `addReason`
unfoldable pub add_reason : List ReasonCode → ReasonCode → List ReasonCode
unfolding includes
add_reason reasons r = if includes reasons r then reasons else reasons ++ r ∷ []

-- `if (test) addReason(reasons, r)`
abbrev pub add_if : Bool → ReasonCode → List ReasonCode → List ReasonCode
add_if true r reasons = add_reason reasons r
add_if false r reasons = reasons

-- `isAllowed`
abbrev pub is_allowed : Option (List Text) → Text → Bool
is_allowed none v = true
is_allowed (some allowlist) v = includes allowlist v

-- The runtime class that a preference names; `auto` is not one.
abbrev pub preference_text : RuntimePreference → Text
preference_text auto = codes "auto"
preference_text kitesurf = codes "kitesurf"
preference_text chromium = codes "chromium"

abbrev pub is_auto : RuntimePreference → Bool
is_auto auto = true
is_auto kitesurf = false
is_auto chromium = false

abbrev pub effective_allow_fallback : RoutingInput → Bool
effective_allow_fallback i = i.runtime.allow_fallback && i.tenant_policy.allow_fallback

abbrev pub effective_allow_experimental : RoutingInput → Bool
effective_allow_experimental i = i.runtime.allow_experimental && i.tenant_policy.allow_experimental

-- The tests of configuration and health, up to the reasons of a rejection.
unfoldable pub health_reasons : Bool → HealthStatus → Bool → List ReasonCode → List ReasonCode
health_reasons false s allow rs = add_reason rs candidate_not_configured
health_reasons true unavailable allow rs = add_reason rs candidate_unhealthy
health_reasons true degraded true rs = rs
health_reasons true degraded false rs = add_reason rs candidate_degraded
health_reasons true healthy allow rs = rs

-- The same tests, up to the reasons of an eligible candidate.
unfoldable pub context_reasons : Bool → HealthStatus → Bool → List ReasonCode
context_reasons true degraded true = candidate_degraded ∷ []
context_reasons _ _ _ = []

abbrev pub is_exhausted : CapacitySignal → Bool
is_exhausted exhausted = true
is_exhausted _ = false

abbrev pub is_blocked : SafetyStatus → Bool
is_blocked blocked = true
is_blocked allowed = false

-- `Math.min(a ?? Infinity, b ?? Infinity)` against a duration: `duration > minimum`.
abbrev pub exceeds : ℕ → Option ℕ → Bool
exceeds n none = false
exceeds n (some limit) = ltb limit n

abbrev pub forbids_provider : TenantPolicy → Text → Bool
forbids_provider p id =
    not (is_allowed p.allowed_provider_ids id) || includes p.denied_provider_ids id

abbrev pub forbids_runtime : TenantPolicy → Text → Bool
forbids_runtime p runtime =
    not (is_allowed p.allowed_runtime_classes runtime) || includes p.denied_runtime_classes runtime

abbrev pub misses_preference : RoutingInput → Text → Bool
misses_preference i runtime =
    not (is_auto i.runtime.preference)
    && not (effective_allow_fallback i)
    && not (runtime == preference_text i.runtime.preference)

abbrev pub exceeds_duration : RoutingInput → RoutingCandidate → Bool
exceeds_duration i c =
    exceeds i.max_session_duration_ms c.safety.maximum_session_duration_ms
    || exceeds i.max_session_duration_ms i.tenant_policy.maximum_session_duration_ms

-- `SPECIALIZED_CAPABILITY_REASONS`
abbrev pub specialized_reason : CapabilityName → Option ReasonCode
specialized_reason webgl = some requires_webgl
specialized_reason video = some requires_video
specialized_reason persistent_auth = some requires_persistent_auth
specialized_reason real_browser_tls = some requires_real_browser_tls
specialized_reason _ = none

abbrev add_option : Option ReasonCode → List ReasonCode → List ReasonCode
add_option none rs = rs
add_option (some r) rs = add_reason rs r

abbrev pub support_reason : SupportState → ReasonCode
support_reason unsupported = required_capability_unsupported
support_reason unknown = capability_unknown
support_reason experimental = capability_experimental_not_allowed
support_reason supported = capability_experimental_not_allowed

abbrev pub is_required : Option RequirementState → Bool
is_required (some required) = true
is_required (some preferred) = false
is_required (some not_required) = false
is_required none = false

-- The body of the loop over the capabilities.
unfoldable pub capability_reasons :
    RoutingCandidate → RoutingInput → CapabilityName → List ReasonCode → List ReasonCode
capability_reasons c i name rs =
    if is_required (i.requirements name)
      && not (is_usable (c.capabilities name) (effective_allow_experimental i))
    then add_reason (add_option (specialized_reason name) rs) (support_reason (c.capabilities name))
    else rs

-- The loop over the capabilities.
unfoldable pub all_capability_reasons :
    RoutingCandidate → RoutingInput → List CapabilityName → List ReasonCode → List ReasonCode
unfolding capability_reasons
all_capability_reasons c i [] rs = rs
all_capability_reasons c i (name ∷ names) rs =
    all_capability_reasons c i names (capability_reasons c i name rs)

-- `rejectionReasons`, when the tests are done.
unfoldable pub rejection_reasons : RoutingCandidate → RoutingInput → List ReasonCode
unfolding health_reasons all_capability_reasons add_reason
rejection_reasons c i =
    let r1 =
      health_reasons c.configured c.health.status i.tenant_policy.allow_degraded_providers [] in
    let r2 = add_if (is_exhausted c.health.capacity) provider_capacity_exhausted r1 in
    let r3 =
      add_if (forbids_provider i.tenant_policy c.provider_id) candidate_forbidden_by_policy r2 in
    let r4 =
      add_if (forbids_runtime i.tenant_policy c.runtime_class) runtime_forbidden_by_policy r3 in
    let r5 = add_if (misses_preference i c.runtime_class) runtime_preference_required r4 in
    let r6 = add_if (is_blocked c.safety.status) candidate_blocked_by_safety r5 in
    let r7 = add_if (exceeds_duration i c) session_duration_unsupported r6 in
    all_capability_reasons c i capability_names r7

pub data Eligibility : Type 0 where
  eligible : (reasons : List ReasonCode) → Eligibility
  rejected : (reasons : List ReasonCode) → Eligibility

-- `rejectionReasons.length > 0 ? ... : ...`
abbrev pub conclude : List ReasonCode → List ReasonCode → Eligibility
conclude [] context = eligible (capabilities_satisfied ∷ context)
conclude (r ∷ rs) context = rejected (r ∷ rs)

-- `evaluateCandidateEligibility`
unfoldable pub evaluate_candidate_eligibility : RoutingCandidate → RoutingInput → Eligibility
unfolding rejection_reasons context_reasons
evaluate_candidate_eligibility c i =
    conclude (rejection_reasons c i)
      (context_reasons c.configured c.health.status i.tenant_policy.allow_degraded_providers)
