-- ===== src/Router/Eligibility/Sound.antt =====
-- router/src/eligibility.ts: `evaluateCandidateEligibility` and the hard constraints.
use surfgate.Common.{
  ==-iff, ℕ, ◌≡◌, refl, ◌↔◌, ◌≢◌, Bool, true, false, Option, none, some, List, [], ◌∷◌, includes,
  arith,
}
use surfgate.Contracts.Text.{text_eq}
use surfgate.Contracts.Capabilities.{
  CapabilityName, capability_names, RequirementState, required, satisfies_capability_requirement,
}
use surfgate.Provider.Health.{HealthStatus, healthy, degraded, unavailable}
use surfgate.Router.Reason.{ReasonCode, reason_eq, capabilities_satisfied}
use surfgate.Router.Candidate.{RoutingCandidate}
use surfgate.Router.Input.{RoutingInput}
use surfgate.Router.Eligibility.Rules.{
  add_reason, preference_text, effective_allow_experimental, health_reasons, exceeds,
  rejection_reasons, conclude, eligible, evaluate_candidate_eligibility,
}
use surfgate.Router.Eligibility.Reasons.{
  Within, Meets, is_empty, capability_met, all_names, all_of, Passed, Passed-of-is_empty,
  is_empty-of-Passed,
}

requirement_met :
    (c : RoutingCandidate) (i : RoutingInput) (name : CapabilityName)
    → capability_met c i name ≡ true
    → (r : RequirementState) → i.requirements name ≡ some r
    → satisfies_capability_requirement (c.capabilities name) r (effective_allow_experimental i)
      ≡ true
unfolding satisfies_capability_requirement
requirement_met c i name h r e = ground arith

capability_met-of :
    (c : RoutingCandidate) (i : RoutingInput) (name : CapabilityName)
    → ((r : RequirementState)
        → i.requirements name ≡ some r
        → satisfies_capability_requirement (c.capabilities name) r (effective_allow_experimental i)
          ≡ true)
    → capability_met c i name ≡ true
unfolding satisfies_capability_requirement
capability_met-of c i name h = ground (arith, h required)

Within-iff : (n : ℕ) (o : Option ℕ) → (exceeds n o ≡ false) ↔ Within n o
Within-iff n none = ((λ _. tt), (λ _. refl))
Within-iff n (some limit) = ground arith

health_facts :
    (configured : Bool) (s : HealthStatus) (allow : Bool)
    → is_empty (health_reasons configured s allow []) ≡ true
    → (configured ≡ true) × (s ≢ unavailable) × (s ≡ degraded → allow ≡ true)
unfolding health_reasons add_reason includes
health_facts false s allow h = ground arith
health_facts true s true h = ground arith
health_facts true s false h = ground arith

health_of :
    (configured : Bool) (s : HealthStatus) (allow : Bool)
    → configured ≡ true
    → s ≢ unavailable
    → (s ≡ degraded → allow ≡ true)
    → is_empty (health_reasons configured s allow []) ≡ true
unfolding health_reasons add_reason includes
health_of true healthy allow e u d = refl
health_of true degraded true e u d = refl
health_of true degraded false e u d = cc (d refl)
health_of true unavailable allow e u d = absurd (u refl)
health_of false s allow e u d = cc

Passed-Meets : (c : RoutingCandidate) (i : RoutingInput) → Passed c i → Meets c i
Passed-Meets c i q =
    let (on, up, fine) =
      health_facts c.configured c.health.status i.tenant_policy.allow_degraded_providers q.health in
    record {
      configured = on;
      reachable = up;
      degradation = fine;
      capacity = λ e. ground arith;
      provider_allowed = ground arith;
      provider_not_denied = ground arith;
      runtime_allowed = ground arith;
      runtime_not_denied = ground arith;
      preference =
          λ e f. ground (arith, ==-iff c.runtime_class (preference_text i.runtime.preference));
      safety = ground arith;
      candidate_duration = (Within-iff _ _).0 (ground arith);
      tenant_duration = (Within-iff _ _).0 (ground arith);
      capabilities =
          λ name r. requirement_met c i name (all_names (capability_met c i) q.capabilities name) r;
    }

Meets-Passed : (c : RoutingCandidate) (i : RoutingInput) → Meets c i → Passed c i
Meets-Passed c i m = record {
  duration = ground (
    arith,
    Within-iff i.max_session_duration_ms c.safety.maximum_session_duration_ms,
    Within-iff i.max_session_duration_ms i.tenant_policy.maximum_session_duration_ms,
    m.candidate_duration,
    m.tenant_duration,
  );
  safety = ground arith;
  preference =
      ground (arith, m.preference, ==-iff c.runtime_class (preference_text i.runtime.preference));
  runtime = ground arith;
  provider = ground arith;
  capacity = ground arith;
  health =
      health_of c.configured c.health.status i.tenant_policy.allow_degraded_providers m.configured
        m.reachable m.degradation;
  capabilities =
      all_of (capability_met c i) (λ name. capability_met-of c i name (m.capabilities name))
        capability_names;
}

conclude-eligible :
    (reasons context rs : List ReasonCode)
    → conclude reasons context ≡ eligible rs
    → is_empty reasons ≡ true
conclude-eligible [] context rs h = refl
conclude-eligible (r ∷ reasons) context rs h = cc

conclude-empty :
    (reasons context : List ReasonCode)
    → is_empty reasons ≡ true
    → conclude reasons context ≡ eligible (capabilities_satisfied ∷ context)
conclude-empty [] context h = refl
conclude-empty (r ∷ reasons) context h = cc

-- The router finds a candidate eligible exactly when it meets every hard constraint: it is
-- configured, reachable and not exhausted, degraded only where the tenant allows it, its provider
-- and its runtime are allowed and not denied, it is the preferred runtime where there is one and
-- no fallback, it is not blocked, the session fits both limits, and every required capability is
-- satisfied.
pub evaluate-Meets :
    (c : RoutingCandidate) (i : RoutingInput)
    → ((rs : List ReasonCode) × (evaluate_candidate_eligibility c i ≡ eligible rs)) ↔ Meets c i
unfolding evaluate_candidate_eligibility
evaluate-Meets c i = (
  λ (rs, h).
      Passed-Meets c i (Passed-of-is_empty c i (conclude-eligible (rejection_reasons c i) _ rs h)),
  λ m. (_, conclude-empty (rejection_reasons c i) _ (is_empty-of-Passed c i (Meets-Passed c i m))),
)
