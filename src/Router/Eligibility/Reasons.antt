-- ===== src/Router/Eligibility/Reasons.antt =====
-- router/src/eligibility.ts: when the list of rejection reasons stays empty.
use surfgate.Common.{
  ℕ, ◌≤◌, ◌≡◌, refl, sym, ◌∙◌, ◌≢◌, inl, inr, Bool, true, false, ◌&&◌, not, Option, none, some,
  List, [], ◌∷◌, includes, arith, Bool-cases, all,
}
use surfgate.Contracts.Text.{text_eq}
use surfgate.Contracts.Capabilities.{
  CapabilityName, javascript, capability_names, RequirementState, is_usable,
  satisfies_capability_requirement,
}
use surfgate.Provider.Health.{degraded, unavailable, exhausted}
use surfgate.Router.Reason.{ReasonCode, reason_eq}
use surfgate.Router.Candidate.{RoutingCandidate, allowed}
use surfgate.Router.Input.{RoutingInput}
use surfgate.Router.Eligibility.Rules.{
  add_reason, add_if, is_allowed, preference_text, is_auto, effective_allow_fallback,
  effective_allow_experimental, health_reasons, is_exhausted, is_blocked, forbids_provider,
  forbids_runtime, misses_preference, exceeds_duration, is_required, capability_reasons,
  all_capability_reasons, rejection_reasons,
}

-- A duration within an optional limit.
abbrev pub Within : ℕ → Option ℕ → Type 0
Within n none = Unit {0}
Within n (some limit) = n ≤ limit

-- The hard constraints of the router on a candidate.
pub record Meets (c : RoutingCandidate) (i : RoutingInput) : Type 0 where
  pub configured : c.configured ≡ true
  pub reachable : c.health.status ≢ unavailable
  pub degradation : c.health.status ≡ degraded → i.tenant_policy.allow_degraded_providers ≡ true
  pub capacity : c.health.capacity ≢ exhausted
  pub provider_allowed : is_allowed i.tenant_policy.allowed_provider_ids c.provider_id ≡ true
  pub provider_not_denied : includes i.tenant_policy.denied_provider_ids c.provider_id ≡ false
  pub runtime_allowed : is_allowed i.tenant_policy.allowed_runtime_classes c.runtime_class ≡ true
  pub runtime_not_denied : includes i.tenant_policy.denied_runtime_classes c.runtime_class ≡ false
  pub preference :
      is_auto i.runtime.preference ≡ false
      → effective_allow_fallback i ≡ false
      → c.runtime_class ≡ preference_text i.runtime.preference
  pub safety : c.safety.status ≡ allowed
  pub candidate_duration : Within i.max_session_duration_ms c.safety.maximum_session_duration_ms
  pub tenant_duration : Within i.max_session_duration_ms i.tenant_policy.maximum_session_duration_ms
  pub capabilities :
      (name : CapabilityName) (r : RequirementState)
      → i.requirements name ≡ some r
      → satisfies_capability_requirement (c.capabilities name) r (effective_allow_experimental i)
        ≡ true

-- A list of reasons that is empty.
abbrev pub is_empty : List ReasonCode → Bool
is_empty [] = true
is_empty (r ∷ rs) = false

pub is_empty-add_reason :
    (rs : List ReasonCode) (r : ReasonCode) → is_empty (add_reason rs r) ≡ false
unfolding add_reason includes
is_empty-add_reason [] r = refl
is_empty-add_reason (x ∷ rs) r = ground arith

pub is_empty-add_if :
    (b : Bool) (r : ReasonCode) (rs : List ReasonCode)
    → is_empty (add_if b r rs) ≡ (not b && is_empty rs)
is_empty-add_if true r rs = is_empty-add_reason rs r
is_empty-add_if false r rs = refl

abbrev pub capability_met : RoutingCandidate → RoutingInput → CapabilityName → Bool
capability_met c i name = not (
    is_required (i.requirements name)
    && not (is_usable (c.capabilities name) (effective_allow_experimental i)))

pub is_empty-capability_reasons :
    (c : RoutingCandidate) (i : RoutingInput) (name : CapabilityName) (rs : List ReasonCode)
    → is_empty (capability_reasons c i name rs) ≡ (capability_met c i name && is_empty rs)
unfolding capability_reasons
is_empty-capability_reasons c i name rs =
    elim (Bool-cases (
      is_required (i.requirements name)
      && not (is_usable (c.capabilities name) (effective_allow_experimental i)))) [
        | inl e ↦ rw e (is_empty-add_reason _ _)
        | inr e ↦ rw e
      ]

pub is_empty-all_capability_reasons :
    (c : RoutingCandidate) (i : RoutingInput) (names : List CapabilityName) (rs : List ReasonCode)
    → is_empty (all_capability_reasons c i names rs)
      ≡ (is_empty rs && all (capability_met c i) names)
unfolding all_capability_reasons all
is_empty-all_capability_reasons c i [] rs = ground arith
is_empty-all_capability_reasons c i (name ∷ names) rs = ground (
  arith,
  is_empty-all_capability_reasons c i names (capability_reasons c i name rs),
  is_empty-capability_reasons c i name rs,
)

-- The tests of the health, as one.
abbrev pub health_met : RoutingCandidate → RoutingInput → Bool
health_met c i =
    is_empty
      (health_reasons c.configured c.health.status i.tenant_policy.allow_degraded_providers [])

pub is_empty-rejection_reasons :
    (c : RoutingCandidate) (i : RoutingInput)
    → is_empty (rejection_reasons c i) ≡ (
        (not (exceeds_duration i c)
          && (not (is_blocked c.safety.status)
              && (not (misses_preference i c.runtime_class)
                  && (not (forbids_runtime i.tenant_policy c.runtime_class)
                      && (not (forbids_provider i.tenant_policy c.provider_id)
                          && (not (is_exhausted c.health.capacity) && health_met c i))))))
        && all (capability_met c i) capability_names)
unfolding rejection_reasons
is_empty-rejection_reasons c i = simp (is_empty-all_capability_reasons, is_empty-add_if)

pub all_names :
    (p : CapabilityName → Bool)
    → all p capability_names ≡ true
    → (name : CapabilityName) → p name ≡ true
unfolding all
all_names p h javascript = ground arith
all_names p h _ = ground arith

pub all_of {ℓ} :
    {A : Type ℓ} (p : A → Bool) → ((a : A) → p a ≡ true) → (xs : List A) → all p xs ≡ true
unfolding all
all_of p h [] = refl
all_of p h (x ∷ xs) = rw (h x) (all_of p h xs)

-- The tests that `is_empty-rejection_reasons` lists, one by one.
pub record Passed (c : RoutingCandidate) (i : RoutingInput) : Type 0 where
  pub duration : exceeds_duration i c ≡ false
  pub safety : is_blocked c.safety.status ≡ false
  pub preference : misses_preference i c.runtime_class ≡ false
  pub runtime : forbids_runtime i.tenant_policy c.runtime_class ≡ false
  pub provider : forbids_provider i.tenant_policy c.provider_id ≡ false
  pub capacity : is_exhausted c.health.capacity ≡ false
  pub health : health_met c i ≡ true
  pub capabilities : all (capability_met c i) capability_names ≡ true

pub conjuncts :
    (a b c d e f g h : Bool)
    → ((not a && (not b && (not c && (not d && (not e && (not f && g)))))) && h) ≡ true
    → (a ≡ false)
      × (b ≡ false)
      × (c ≡ false)
      × (d ≡ false)
      × (e ≡ false)
      × (f ≡ false)
      × (g ≡ true)
      × (h ≡ true)
conjuncts a b c d e f g h t = ground arith

pub Passed-of-is_empty :
    (c : RoutingCandidate) (i : RoutingInput) → is_empty (rejection_reasons c i) ≡ true → Passed c i
Passed-of-is_empty c i h =
    let (u, v, w, x, y, z, q, r) =
      conjuncts (exceeds_duration i c) (is_blocked c.safety.status)
        (misses_preference i c.runtime_class) (forbids_runtime i.tenant_policy c.runtime_class)
        (forbids_provider i.tenant_policy c.provider_id) (is_exhausted c.health.capacity)
        (health_met c i) (all (capability_met c i) capability_names)
        (sym (is_empty-rejection_reasons c i) ∙ h) in
    record {
      duration = u;
      safety = v;
      preference = w;
      runtime = x;
      provider = y;
      capacity = z;
      health = q;
      capabilities = r;
    }

pub is_empty-of-Passed :
    (c : RoutingCandidate) (i : RoutingInput) → Passed c i → is_empty (rejection_reasons c i) ≡ true
is_empty-of-Passed c i q = rw (
  is_empty-rejection_reasons c i,
  q.duration,
  q.safety,
  q.preference,
  q.runtime,
  q.provider,
  q.capacity,
  q.health,
  q.capabilities,
)
