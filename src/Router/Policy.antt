-- ===== src/Router/Policy.antt =====
-- router/src/policy-v1.ts: the numbers of the policy `router-v1`. Scores are given in thousandths
-- of a point, the unit to which the router rounds.
use surfgate.Common.{ℕ, ◌*◌, Bool, true, false, ◌==◌, if◌then◌else◌}
use surfgate.Contracts.Text.{Text, text_eq, codes}
use surfgate.Contracts.Capabilities.{SupportState, supported, unsupported, experimental, unknown}
use surfgate.Provider.Health.{
  HealthStatus, healthy, degraded, unavailable, CapacitySignal, available, constrained, exhausted,
}

pub record Weights : Type 0 where
  pub preference : ℕ
  pub efficiency : ℕ
  pub compatibility : ℕ
  pub health : ℕ
  pub latency : ℕ
  pub capacity : ℕ

abbrev pub weights : Weights
weights = record {
  preference = 30;
  efficiency = 25;
  compatibility = 20;
  health = 15;
  latency = 5;
  capacity = 5;
}

abbrev pub points : ℕ → ℕ
points n = n * 1000

abbrev pub default_signal_score : ℕ
default_signal_score = 50

-- What `runtimeEfficiencyScores[runtimeClass]` finds: nothing, a number, or a member that every
-- object inherits. Of the inherited names only `constructor` is a runtime class.
pub data EfficiencyEntry : Type 0 where
  missing inherited : EfficiencyEntry
  number : ℕ → EfficiencyEntry

abbrev pub runtime_efficiency_score : Text → EfficiencyEntry
runtime_efficiency_score t =
    if t == codes "kitesurf"
    then number 100
    else if t == codes "chromium"
    then number 60
    else if t == codes "constructor"
    then inherited
    else missing

abbrev pub default_runtime_efficiency_score : ℕ
default_runtime_efficiency_score = 50

abbrev pub health_score : HealthStatus → ℕ
health_score healthy = 100
health_score degraded = 50
health_score unavailable = 0

abbrev pub capacity_score : CapacitySignal → ℕ
capacity_score available = 100
capacity_score constrained = 25
capacity_score exhausted = 0
capacity_score CapacitySignal.unknown = 50

-- `preferredCapabilityScores`, as `preferredSupportScore` reads them (scoring.ts).
abbrev pub preferred_support_score : SupportState → Bool → ℕ
preferred_support_score supported e = 100
preferred_support_score experimental true = 80
preferred_support_score experimental false = 40
preferred_support_score unknown e = 25
preferred_support_score unsupported e = 0

abbrev pub explicit_preference_match_score : ℕ
explicit_preference_match_score = 100

abbrev pub explicit_preference_mismatch_score : ℕ
explicit_preference_mismatch_score = 0

abbrev pub tenant_preference_match_score : ℕ
tenant_preference_match_score = 100

abbrev pub tenant_preference_mismatch_score : ℕ
tenant_preference_mismatch_score = 25

abbrev pub neutral_preference_score : ℕ
neutral_preference_score = 50

abbrev pub fast_path_efficiency_threshold : ℕ
fast_path_efficiency_threshold = 90

abbrev pub low_compatibility_threshold : ℕ
low_compatibility_threshold = 40

abbrev pub maximum_cross_runtime_fallbacks : ℕ
maximum_cross_runtime_fallbacks = 1
