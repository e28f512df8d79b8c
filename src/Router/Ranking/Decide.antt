-- ===== src/Router/Ranking/Decide.antt =====
-- router/src/router.ts: `routeBrowserRuntime`.
use surfgate.Common.{Bool, true, false, ◌&&◌, Option, none, some, List, [], ◌∷◌, map, if◌then◌else◌}
use surfgate.Common.Maybe.{◌>>=◌}
use surfgate.Common.Sorting.{sort_by}
use surfgate.Router.Reason.{ReasonCode, no_compatible_runtime}
use surfgate.Router.Policy.{maximum_cross_runtime_fallbacks}
use surfgate.Router.Identity.{CandidateIdentity, parse_identity}
use surfgate.Router.Candidate.{RoutingCandidate, map_option, build_routing_candidates}
use surfgate.Router.Input.{RoutingInput, parse_input}
use surfgate.Router.Eligibility.Rules.{
  Eligibility, eligible, rejected, evaluate_candidate_eligibility, add_reason,
}
use surfgate.Router.Scoring.Score.{ScoredCandidate, score_eligible_candidate}
use surfgate.Router.Ranking.Rank.{compare_scored}
use surfgate.Router.Ranking.Decision.{
  EligibleCandidate, RejectedCandidate, RoutingDecision, parse_decision, top_rank_is_tied,
  winner_reason, later_reason,
}

-- `toRoutingCandidateIdentity`
unfoldable pub to_routing_candidate_identity : RoutingCandidate → Option CandidateIdentity
unfolding parse_identity
to_routing_candidate_identity c = parse_identity (record {
  candidate_id = c.candidate_id;
  provider_id = c.provider_id;
  runtime_class = c.runtime_class;
  region = c.region;
  config_profile = c.config_profile;
})

-- `rejectedCandidates` and `scoredCandidates`
pub record Judged : Type 0 where
  pub rejected_candidates : List RejectedCandidate
  pub scored_candidates : List ScoredCandidate

-- A turn of the loop, before the later turns' results.
abbrev pub judge : RoutingCandidate → RoutingInput → Eligibility → Judged → Option Judged
judge c i (rejected reasons) later = do
  identity ← to_routing_candidate_identity c
  some (record later {
    rejected_candidates =
        record { candidate = identity; reason_codes = reasons } ∷ later.rejected_candidates;
  })
judge c i (eligible reasons) later = do
  scored ← score_eligible_candidate c reasons i
  some (record later { scored_candidates = scored ∷ later.scored_candidates })

-- The loop over the candidates; `none` where one of its turns throws.
unfoldable pub judge_all : RoutingInput → List RoutingCandidate → Option Judged
unfolding to_routing_candidate_identity evaluate_candidate_eligibility score_eligible_candidate
judge_all i [] = some (record { rejected_candidates = []; scored_candidates = [] })
judge_all i (c ∷ cs) = judge_all i cs >>= judge c i (evaluate_candidate_eligibility c i)

-- The record of a ranked candidate.
abbrev pub entry : ReasonCode → Bool → ScoredCandidate → Option EligibleCandidate
entry reason selected s = do
  identity ← to_routing_candidate_identity s.candidate
  some (record {
    candidate = identity;
    score_breakdown = s.score_breakdown;
    reason_codes = add_reason s.reason_codes reason;
    selected = selected;
  })

-- `rankedCandidates.map(...)`: the first candidate is selected.
unfoldable pub eligible_candidates_of : List ScoredCandidate → Option (List EligibleCandidate)
unfolding to_routing_candidate_identity add_reason map_option
eligible_candidates_of [] = some []
eligible_candidates_of (w ∷ rest) = do
  let tied = top_rank_is_tied (map (λ s. s.score_breakdown) (w ∷ rest))
  winner ← entry (winner_reason tied) true w
  others ←
      map_option (λ s. entry (later_reason tied w.score_breakdown s.score_breakdown) false s) rest
  some (winner ∷ others)

abbrev pub first_identity : List EligibleCandidate → Option CandidateIdentity
first_identity [] = none
first_identity (w ∷ rest) = some w.candidate

abbrev pub first_reasons : List EligibleCandidate → List ReasonCode
first_reasons [] = no_compatible_runtime ∷ []
first_reasons (w ∷ rest) = w.reason_codes

abbrev pub has_winner : List EligibleCandidate → Bool
has_winner [] = false
has_winner (w ∷ rest) = true

-- The decision that is made of the ranking.
abbrev pub decision_of :
    RoutingInput
    → List RoutingCandidate
    → List EligibleCandidate
    → List RejectedCandidate
    → RoutingDecision
decision_of i candidates ranked refused =
    let fallback =
      has_winner ranked && i.runtime.allow_fallback && i.tenant_policy.allow_fallback in
    record {
      decision_id = i.decision_id;
      tenant_id = i.tenant_id;
      request_id = i.request_id;
      capability_registry_version = i.capability_registry_version;
      created_at = i.created_at;
      outcome = has_winner ranked;
      selected_candidate = first_identity ranked;
      eligible_candidates = ranked;
      rejected_candidates = refused;
      reason_codes = first_reasons ranked;
      health_snapshots =
          map (λ c. record { candidate_id = c.candidate_id; health = c.health }) candidates;
      fallback_policy = record {
        allowed = fallback;
        maximum_cross_runtime_fallbacks = if fallback then maximum_cross_runtime_fallbacks else 0;
      };
    }

-- `rankedCandidates`
abbrev pub ranked_candidates : List ScoredCandidate → List ScoredCandidate
ranked_candidates ss = sort_by compare_scored ss

-- `routeBrowserRuntime` behind the check of its input.
unfoldable pub route_checked : RoutingInput → Option RoutingDecision
unfolding build_routing_candidates judge_all eligible_candidates_of parse_decision sort_by
route_checked i = do
  candidates ← build_routing_candidates i.candidate_sources
  judged ← judge_all i candidates
  ranked ← eligible_candidates_of (ranked_candidates judged.scored_candidates)
  parse_decision (decision_of i candidates ranked judged.rejected_candidates)

-- `routeBrowserRuntime`; `none` where it throws.
unfoldable pub route_browser_runtime : RoutingInput → Option RoutingDecision
unfolding parse_input route_checked
route_browser_runtime raw = parse_input raw >>= route_checked
