-- ===== src/Router/Reason.antt =====
-- router/src/reason-code.ts: why a candidate was chosen, ranked or refused.
use surfgate.Common.{Eq}

pub data ReasonCode : Type 0 where
  capabilities_satisfied fast_path_preferred requested_runtime_preference tenant_runtime_preference
        candidate_unhealthy candidate_degraded candidate_not_configured
        candidate_forbidden_by_policy runtime_forbidden_by_policy runtime_preference_required
        session_duration_unsupported candidate_blocked_by_safety required_capability_unsupported
        requires_webgl requires_video requires_persistent_auth requires_real_browser_tls
        capability_unknown capability_experimental_not_allowed preferred_capability_match
        domain_compatibility_low provider_rate_limited provider_capacity_exhausted
        selected_highest_score lower_score stable_tie_break no_compatible_runtime fallback_eligible
        fallback_not_eligible fallback_disabled fallback_candidate_unavailable fallback_same_runtime
        fallback_from_runtime fallback_limit_reached :
      ReasonCode

unfoldable pub ReasonCode-discrete : Discrete ReasonCode
ReasonCode-discrete = hlevel

instance abbrev pub reason_eq : Eq ReasonCode
reason_eq = record { tell_apart = ReasonCode-discrete }
