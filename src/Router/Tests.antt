-- ===== src/Router/Tests.antt =====
-- A request with two sources that the router decides, and the theorems at it.
use mathlib.Core.List.{Permᴰ}
use surfgate.Common.{
  passes, ◌≡◌, refl, ◌↔◌, Bool, true, false, Option, none, some, List, [], ◌∷◌, all_distinct,
  includes, any, map, arith, ℕ_discrete,
}
use surfgate.Common.Maybe.{◌>>=◌}
use surfgate.Common.Rows.{Pairwise}
use surfgate.Contracts.Text.{Text, codes, text_eq, Text-discrete, text_lt}
use surfgate.Contracts.Capabilities.{
  screenshot, pdf, SupportMap, supported, unsupported, Requirements, required, preferred, auto,
}
use surfgate.Provider.Health.{ProviderHealth, healthy, available, provider_healthy}
use surfgate.Router.Reason.{
  ReasonCode, reason_eq, ReasonCode-discrete, capabilities_satisfied, candidate_blocked_by_safety,
}
use surfgate.Router.Identity.{CandidateIdentity}
use surfgate.Router.Candidate.{blocked, InputSource, RoutingCandidate, allowed, parse_candidate}
use surfgate.Router.Input.{RoutingInput, parse_input}
use surfgate.Router.Eligibility.Rules.{eligible, evaluate_candidate_eligibility}
use surfgate.Router.Eligibility.Reasons.{Meets}
use surfgate.Router.Eligibility.Sound.{evaluate-Meets}
use surfgate.Router.Policy.{runtime_efficiency_score}
use surfgate.Router.Scoring.Score.{
  is_breakdown, ScoredCandidate, score_eligible_candidate, scored_of, efficiency_of, signal_score,
  parse_scored, breakdown_of, preference_score, compatibility_score, compatibility_of,
  preferred_among, support_total, weighted_total, score_reasons,
}
use surfgate.Router.Scoring.Range.{score_eligible_candidate-total}
use surfgate.Router.Ranking.Decision.{rejected_id, RoutingDecision}
use surfgate.Router.Ranking.Judged.{scored_id, eligible_ids, rejected_ids, judge_all_divides}
use surfgate.Router.Ranking.Decide.{Judged, judge_all, ranked_candidates, route_browser_runtime}
use surfgate.Router.Ranking.Ranked.{Precedes, ranked_candidates-Precedes, ranking_unique}
use surfgate.Router.Ranking.Sources.{with_sources, route-sources}

abbrev good_health : ProviderHealth
good_health = record {
  status = healthy;
  configured = true;
  diagnostic_code = provider_healthy;
  capacity = available;
  checked_at = 1000;
  latency_ms = some 20000;
  retry_after_ms = none;
}

abbrev everything : SupportMap
everything name = supported

abbrev no_pdf : SupportMap
no_pdf pdf = unsupported
no_pdf name = supported

abbrev source : Text → SupportMap → InputSource
source runtime support = record {
  descriptor = record {
    provider_id = codes "cloudflare";
    runtime_class = runtime;
    display_name = codes "Browser";
    capabilities = support;
    implementation = record { name = codes "cf"; version = codes "1" };
    region = none;
    config_profile = none;
    configured = true;
  };
  health = good_health;
  safety = record { status = allowed; maximum_session_duration_ms = some 600000 };
}

abbrev wants : Requirements
wants screenshot = some required
wants pdf = some preferred
wants name = none

abbrev request : RoutingInput
request = record {
  decision_id = codes "rtd_01ARZ3NDEKTSV4RRFFQ69G5FAV";
  tenant_id = codes "ten_01ARZ3NDEKTSV4RRFFQ69G5FAV";
  request_id = codes "req_01ARZ3NDEKTSV4RRFFQ69G5FAV";
  created_at = 1000;
  capability_registry_version = codes "2026-01";
  requirements = wants;
  runtime = record { preference = auto; allow_fallback = true; allow_experimental = false };
  max_session_duration_ms = 300000;
  tenant_policy = record {
    allowed_provider_ids = none;
    denied_provider_ids = [];
    allowed_runtime_classes = none;
    denied_runtime_classes = [];
    preferred_runtime = auto;
    maximum_session_duration_ms = none;
    allow_degraded_providers = false;
    allow_fallback = true;
    allow_experimental = false;
  };
  candidate_sources = source (codes "chromium") everything ∷ source (codes "kitesurf") no_pdf ∷ [];
  signals = record { compatibility = []; efficiency = []; latency = [] };
}

abbrev selected_id : Option RoutingDecision → Option Text
selected_id d = d >>= λ r. r.selected_candidate >>= λ w. some w.candidate_id

abbrev is_accepted : Option RoutingInput → Bool
is_accepted none = false
is_accepted (some i) = true

-- The request selects Kitesurf.
selects_kitesurf :
    selected_id (route_browser_runtime request) ≡ some (codes "cloudflare::kitesurf::-::-")
unfolding route_browser_runtime text_lt efficiency_of signal_score parse_scored breakdown_of
    preference_score compatibility_score compatibility_of preferred_among support_total
    weighted_total score_reasons any ReasonCode-discrete
selects_kitesurf = refl

-- A request with a source whose runtime class is `constructor`, which the schemas accept, is not
-- decided: the score of its efficiency is not a number.
constructor_source_throws :
    route_browser_runtime (with_sources request (source (codes "constructor") everything ∷ []))
    ≡ none
unfolding route_browser_runtime text_lt efficiency_of signal_score parse_scored breakdown_of
    preference_score compatibility_score compatibility_of preferred_among support_total
    weighted_total score_reasons any ReasonCode-discrete
constructor_source_throws = refl

constructor_source_accepted :
    is_accepted (parse_input (with_sources request (source (codes "constructor") everything ∷ [])))
    ≡ true
unfolding parse_input
constructor_source_accepted = refl

route-sources_example :
    route_browser_runtime (
      with_sources request
        (source (codes "chromium") everything ∷ source (codes "kitesurf") no_pdf ∷ []))
    ≡ route_browser_runtime (
        with_sources request
          (source (codes "kitesurf") no_pdf ∷ source (codes "chromium") everything ∷ []))
route-sources_example = route-sources request (Permᴰ.swap refl refl)

abbrev candidate : Text → Text → SupportMap → RoutingCandidate
candidate id runtime support = record {
  candidate_id = id;
  provider_id = codes "cloudflare";
  runtime_class = runtime;
  region = none;
  config_profile = none;
  configured = true;
  capabilities = support;
  health = good_health;
  safety = record { status = allowed; maximum_session_duration_ms = some 600000 };
}

abbrev fast : RoutingCandidate
fast = candidate (codes "cloudflare::kitesurf::-::-") (codes "kitesurf") no_pdf

abbrev full : RoutingCandidate
full = candidate (codes "cloudflare::chromium::-::-") (codes "chromium") everything

fast_evaluated :
    evaluate_candidate_eligibility fast request ≡ eligible (capabilities_satisfied ∷ [])
unfolding evaluate_candidate_eligibility
fast_evaluated = refl

evaluate-Meets_example :
    ((rs : List ReasonCode) × (evaluate_candidate_eligibility fast request ≡ eligible rs))
    ↔ Meets fast request
evaluate-Meets_example = evaluate-Meets fast request

fast_parsed : parse_candidate fast ≡ some fast
unfolding parse_candidate
fast_parsed = refl

score_eligible_candidate-total_example :
    score_eligible_candidate fast (capabilities_satisfied ∷ []) request ≡ (
      efficiency_of
        (signal_score request.signals.efficiency fast.candidate_id)
        (runtime_efficiency_score fast.runtime_class)
      >>= λ e. some (scored_of fast (capabilities_satisfied ∷ []) request e))
score_eligible_candidate-total_example =
    score_eligible_candidate-total fast (capabilities_satisfied ∷ []) request fast_parsed tt tt tt
      (omega arith)

abbrev fast_scored : ScoredCandidate
fast_scored = scored_of fast (capabilities_satisfied ∷ []) request 100

abbrev full_scored : ScoredCandidate
full_scored = scored_of full (capabilities_satisfied ∷ []) request 60

ranked_candidates-Precedes_example :
    Permᴰ (ranked_candidates (full_scored ∷ fast_scored ∷ [])) (full_scored ∷ fast_scored ∷ [])
    × Pairwise Precedes (ranked_candidates (full_scored ∷ fast_scored ∷ []))
ranked_candidates-Precedes_example = ranked_candidates-Precedes (full_scored ∷ fast_scored ∷ [])

distinct_ids :
    all_distinct (map (λ s. s.candidate.candidate_id) (full_scored ∷ fast_scored ∷ [])) ≡ true
unfolding all_distinct includes Text-discrete ℕ_discrete
distinct_ids = refl

ranking_unique_example :
    ranked_candidates (full_scored ∷ fast_scored ∷ [])
    ≡ ranked_candidates (fast_scored ∷ full_scored ∷ [])
ranking_unique_example = ranking_unique (Permᴰ.swap refl refl) distinct_ids

abbrev blocked_one : RoutingCandidate
blocked_one = record full {
  safety = record { status = blocked; maximum_session_duration_ms = none };
}

abbrev blocked_identity : CandidateIdentity
blocked_identity = record {
  candidate_id = codes "cloudflare::chromium::-::-";
  provider_id = codes "cloudflare";
  runtime_class = codes "chromium";
  region = none;
  config_profile = none;
}

abbrev one_of_two : Judged
one_of_two = record {
  rejected_candidates =
      record { candidate = blocked_identity; reason_codes = candidate_blocked_by_safety ∷ [] } ∷ [];
  scored_candidates = fast_scored ∷ [];
}

loop_result : judge_all request (blocked_one ∷ fast ∷ []) ≡ some one_of_two
unfolding judge_all efficiency_of signal_score parse_scored parse_candidate is_breakdown passes
    breakdown_of preference_score compatibility_score compatibility_of preferred_among support_total
    weighted_total score_reasons any ReasonCode-discrete
loop_result = refl

judge_all_divides_example :
    (map scored_id one_of_two.scored_candidates ≡ eligible_ids request (blocked_one ∷ fast ∷ []))
    × (map rejected_id one_of_two.rejected_candidates
        ≡ rejected_ids request (blocked_one ∷ fast ∷ []))
judge_all_divides_example =
    judge_all_divides request (blocked_one ∷ fast ∷ []) one_of_two loop_result
