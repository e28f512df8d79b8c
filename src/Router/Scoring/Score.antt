-- ===== src/Router/Scoring/Score.antt =====
-- router/src/scoring.ts: `scoreEligibleCandidate`. Scores are in thousandths of a point, the unit
-- of `roundScore`. The quotients are taken exactly: the double that the code rounds is never on
-- the other side of a half, since a half occurs only with a divisor of 8, where it is exact.
use surfgate.Common.{
  ℕ, ◌+◌, ◌*◌, ◌/◌, Bool, true, false, ◌&&◌, not, Option, none, some, List, [], ◌∷◌, if◌then◌else◌,
  leb, ltb, nat_eq, ◌==◌, or_default, length, any, passes,
}
use surfgate.Common.Maybe.{◌>>=◌, ◌>>◌, accept}
use surfgate.Contracts.Text.{Text, text_eq}
use surfgate.Contracts.Capabilities.{
  CapabilityName, capability_names, RequirementState, required, preferred, not_required, is_usable,
}
use surfgate.Router.Reason.{
  ReasonCode, fast_path_preferred, requested_runtime_preference, tenant_runtime_preference,
  preferred_capability_match, domain_compatibility_low,
}
use surfgate.Router.Policy.{
  weights, points, default_signal_score, EfficiencyEntry, missing, inherited, number,
  runtime_efficiency_score, default_runtime_efficiency_score, health_score, capacity_score,
  preferred_support_score, explicit_preference_match_score, explicit_preference_mismatch_score,
  tenant_preference_match_score, tenant_preference_mismatch_score, neutral_preference_score,
  fast_path_efficiency_threshold, low_compatibility_threshold,
}
use surfgate.Router.Candidate.{RoutingCandidate, parse_candidate}
use surfgate.Router.Input.{RoutingInput, ScoreSignal}
use surfgate.Router.Eligibility.Rules.{
  add_reason, add_if, is_auto, preference_text, effective_allow_experimental,
}

pub record ScoreBreakdown : Type 0 where
  pub preference_score : ℕ
  pub efficiency_score : ℕ
  pub compatibility_score : ℕ
  pub health_score : ℕ
  pub latency_score : ℕ
  pub capacity_score : ℕ
  pub total_score : ℕ

-- `Math.round(n / d)`: a half goes up.
abbrev pub round_div : ℕ → ℕ → ℕ
round_div n d = (2 * n + d) / (2 * d)

-- The weighted mean of the six scores, rounded.
unfoldable pub weighted_total : (p e k h l c : ℕ) → ℕ
weighted_total p e k h l c =
    round_div
      (p * weights.preference
        + e * weights.efficiency
        + k * weights.compatibility
        + h * weights.health
        + l * weights.latency
        + c * weights.capacity)
      100

abbrev pub is_score : ℕ → Bool
is_score s = leb s (points 100)

-- `CandidateScoreBreakdownSchema`
unfoldable pub is_breakdown : ScoreBreakdown → Bool
is_breakdown b = passes (
    is_score b.preference_score
    ∷ is_score b.efficiency_score
    ∷ is_score b.compatibility_score
    ∷ is_score b.health_score
    ∷ is_score b.latency_score
    ∷ is_score b.capacity_score
    ∷ is_score b.total_score
    ∷ nat_eq b.total_score (
        weighted_total b.preference_score b.efficiency_score b.compatibility_score b.health_score
          b.latency_score b.capacity_score)
    ∷ [])

-- Six scores with their total.
abbrev pub with_total : (p e k h l c : ℕ) → ScoreBreakdown
with_total p e k h l c = record {
  preference_score = p;
  efficiency_score = e;
  compatibility_score = k;
  health_score = h;
  latency_score = l;
  capacity_score = c;
  total_score = weighted_total p e k h l c;
}

-- `signalScore`
unfoldable pub signal_score : List ScoreSignal → Text → Option ℕ
signal_score [] id = none
signal_score (s ∷ ss) id = if s.candidate_id == id then some s.score else signal_score ss id

-- `preferenceScore`: the score, and the reasons with the one that it adds.
unfoldable pub preference_score :
    RoutingCandidate → RoutingInput → List ReasonCode → ℕ × List ReasonCode
preference_score c i reasons =
    if not (is_auto i.runtime.preference)
    then (if c.runtime_class == preference_text i.runtime.preference
        then (explicit_preference_match_score, add_reason reasons requested_runtime_preference)
        else (explicit_preference_mismatch_score, reasons))
    else if not (is_auto i.tenant_policy.preferred_runtime)
    then (if c.runtime_class == preference_text i.tenant_policy.preferred_runtime
        then (tenant_preference_match_score, add_reason reasons tenant_runtime_preference)
        else (tenant_preference_mismatch_score, reasons))
    else (neutral_preference_score, reasons)

-- `signal ?? runtimeEfficiencyScores[...] ?? default`; `none` where it is no number.
unfoldable pub efficiency_of : Option ℕ → EfficiencyEntry → Option ℕ
efficiency_of (some n) entry = some n
efficiency_of none (number n) = some n
efficiency_of none missing = some default_runtime_efficiency_score
efficiency_of none inherited = none

abbrev is_preferred : Option RequirementState → Bool
is_preferred (some preferred) = true
is_preferred (some required) = false
is_preferred (some not_required) = false
is_preferred none = false

-- `CAPABILITY_NAMES.filter(...)`
unfoldable pub preferred_among : RoutingInput → List CapabilityName → List CapabilityName
preferred_among i [] = []
preferred_among i (name ∷ names) =
    if is_preferred (i.requirements name)
    then name ∷ preferred_among i names
    else preferred_among i names

-- The sum that `reduce` makes.
unfoldable pub support_total : RoutingCandidate → Bool → List CapabilityName → ℕ
support_total c allow [] = 0
support_total c allow (name ∷ names) =
    preferred_support_score (c.capabilities name) allow + support_total c allow names

-- `roundScore((signal + total / n) / 2)` with n preferred capabilities, or the signal with none.
unfoldable pub compatibility_of : ℕ → ℕ → ℕ → ℕ
compatibility_of signal total ℕ.zero = points signal
compatibility_of signal total (ℕ.suc n) =
    round_div (1000 * (signal * ℕ.suc n + total)) (2 * ℕ.suc n)

pub record ScoredCandidate : Type 0 where
  pub candidate : RoutingCandidate
  pub score_breakdown : ScoreBreakdown
  pub reason_codes : List ReasonCode

abbrev pub matches : RoutingCandidate → Bool → CapabilityName → Bool
matches c allow name = is_usable (c.capabilities name) allow

-- `compatibilitySignal`
abbrev pub compatibility_signal : RoutingCandidate → RoutingInput → ℕ
compatibility_signal c i =
    or_default (signal_score i.signals.compatibility c.candidate_id) default_signal_score

-- `calculatedCompatibilityScore`
unfoldable pub compatibility_score : RoutingCandidate → RoutingInput → ℕ
compatibility_score c i =
    compatibility_of (compatibility_signal c i)
      (support_total c (effective_allow_experimental i) (preferred_among i capability_names))
      (length (preferred_among i capability_names))

-- `calculatedLatencyScore`
abbrev pub latency_score : RoutingCandidate → RoutingInput → ℕ
latency_score c i = or_default (signal_score i.signals.latency c.candidate_id) default_signal_score

-- The scores of a candidate with the preference score `p` and the efficiency `e`.
unfoldable pub breakdown_of : RoutingCandidate → RoutingInput → ℕ → ℕ → ScoreBreakdown
breakdown_of c i p e =
    with_total (points p) (points e) (compatibility_score c i)
      (points (health_score c.health.status)) (points (latency_score c i))
      (points (capacity_score c.health.capacity))

-- The reasons that scoring adds behind that of the preference.
unfoldable pub score_reasons :
    RoutingCandidate → RoutingInput → ℕ → List ReasonCode → List ReasonCode
score_reasons c i e r1 =
    let r2 = add_if (leb fast_path_efficiency_threshold e) fast_path_preferred r1 in
    let r3 =
      add_if (ltb (compatibility_signal c i) low_compatibility_threshold) domain_compatibility_low
        r2 in
    add_if (any (matches c (effective_allow_experimental i)) (preferred_among i capability_names))
      preferred_capability_match r3

-- `ScoredRoutingCandidateSchema`
unfoldable pub parse_scored : ScoredCandidate → Option ScoredCandidate
parse_scored s = do
  c ← parse_candidate s.candidate
  accept (is_breakdown s.score_breakdown && leb 1 (length s.reason_codes))
  some (record s { candidate = c })

-- What `scoreEligibleCandidate` gives to its schema, with the efficiency `e`.
abbrev pub scored_of : RoutingCandidate → List ReasonCode → RoutingInput → ℕ → ScoredCandidate
scored_of c reasons i e =
    let (p, r1) = preference_score c i reasons in
    record {
      candidate = c;
      score_breakdown = breakdown_of c i p e;
      reason_codes = score_reasons c i e r1;
    }

-- `scoreEligibleCandidate`, for the reasons of its eligibility; `none` where it throws.
unfoldable pub score_eligible_candidate :
    RoutingCandidate → List ReasonCode → RoutingInput → Option ScoredCandidate
score_eligible_candidate c reasons i = do
  e ←
      efficiency_of (signal_score i.signals.efficiency c.candidate_id)
        (runtime_efficiency_score c.runtime_class)
  parse_scored (scored_of c reasons i e)
