-- ===== src/Router/Ranking/Decision.antt =====
-- router/src/routing-decision.ts: the decision of the router, and what its schema asks of it.
-- `policyVersion` is a literal, and so it is no field.
use Prim.Native.Nat.{Ordering}
use surfgate.Common.{
  ◌==◌, Bool, true, false, ◌&&◌, ◌||◌, Option, none, some, List, [], ◌∷◌, ◌++◌, map, all,
  all_distinct, includes, length, leb, nat_eq, if◌then◌else◌, Eq, passes,
}
use surfgate.Common.Maybe.{◌>>=◌, ◌>>◌, accept}
use surfgate.Common.Sorting.{sort_by}
use surfgate.Contracts.Text.{Text, text_eq}
use surfgate.Contracts.Ids.{is_routing_decision_id, is_tenant_id, is_request_id}
use surfgate.Contracts.Tasks.{Timestamp}
use surfgate.Provider.Health.{ProviderHealth, is_health}
use surfgate.Router.Reason.{
  ReasonCode, reason_eq, selected_highest_score, lower_score, stable_tie_break,
  no_compatible_runtime,
}
use surfgate.Router.Identity.{CandidateIdentity, parse_identity, is_candidate_id}
use surfgate.Router.Candidate.{map_option}
use surfgate.Router.Input.{is_registry_version}
use surfgate.Router.Fallback.State.{FallbackPolicy, is_policy}
use surfgate.Router.Scoring.Score.{ScoreBreakdown, is_breakdown}
use surfgate.Router.Ranking.Rank.{Rankable, compare_ranked_candidates, has_exact_rank_tie}

pub record EligibleCandidate : Type 0 where
  pub candidate : CandidateIdentity
  pub score_breakdown : ScoreBreakdown
  pub reason_codes : List ReasonCode
  pub selected : Bool

pub record RejectedCandidate : Type 0 where
  pub candidate : CandidateIdentity
  pub reason_codes : List ReasonCode

pub record HealthSnapshot : Type 0 where
  pub candidate_id : Text
  pub health : ProviderHealth

-- `true` is the outcome `selected`.
pub record RoutingDecision : Type 0 where
  pub decision_id : Text
  pub tenant_id : Text
  pub request_id : Text
  pub capability_registry_version : Text
  pub created_at : Timestamp
  pub outcome : Bool
  pub selected_candidate : Option CandidateIdentity
  pub eligible_candidates : List EligibleCandidate
  pub rejected_candidates : List RejectedCandidate
  pub reason_codes : List ReasonCode
  pub health_snapshots : List HealthSnapshot
  pub fallback_policy : FallbackPolicy

-- `ReasonCodesSchema`
unfoldable pub are_reasons : List ReasonCode → Bool
unfolding all_distinct
are_reasons rs = leb 1 (length rs) && all_distinct rs

-- `EligibleRoutingCandidateSchema`
unfoldable pub parse_eligible : EligibleCandidate → Option EligibleCandidate
unfolding are_reasons parse_identity is_breakdown
parse_eligible e = do
  identity ← parse_identity e.candidate
  accept (is_breakdown e.score_breakdown && are_reasons e.reason_codes)
  some (record e { candidate = identity })

-- `RejectedRoutingCandidateSchema`
unfoldable pub parse_rejected : RejectedCandidate → Option RejectedCandidate
unfolding are_reasons parse_identity
parse_rejected r = do
  identity ← parse_identity r.candidate
  accept (are_reasons r.reason_codes)
  some (record r { candidate = identity })

-- `RoutingHealthSnapshotSchema`
unfoldable pub is_snapshot : HealthSnapshot → Bool
unfolding is_candidate_id is_health
is_snapshot s = is_candidate_id s.candidate_id && is_health s.health

abbrev pub eligible_id : EligibleCandidate → Text
eligible_id e = e.candidate.candidate_id

abbrev pub rejected_id : RejectedCandidate → Text
rejected_id r = r.candidate.candidate_id

abbrev pub eligible_rank : EligibleCandidate → Rankable
eligible_rank e = record { candidate_id = eligible_id e; score_breakdown = e.score_breakdown }

abbrev pub compare_eligible : EligibleCandidate → EligibleCandidate → Ordering
compare_eligible l r = compare_ranked_candidates (eligible_rank l) (eligible_rank r)

-- `candidateIDs`
abbrev pub candidate_ids : RoutingDecision → List Text
candidate_ids d = map eligible_id d.eligible_candidates ++ map rejected_id d.rejected_candidates

abbrev pub snapshots_match : List Text → List Text → Bool
snapshots_match health_ids ids =
    all_distinct health_ids
    && nat_eq (length health_ids) (length ids)
    && all (λ id. includes ids id) health_ids

-- Two lists with the same items at the same places.
unfoldable pub same_items {ℓ} : {A : Type ℓ} ⦃discrete : Eq A⦄ → List A → List A → Bool
same_items [] [] = true
same_items [] (y ∷ ys) = false
same_items (x ∷ xs) [] = false
same_items (x ∷ xs) (y ∷ ys) = x == y && same_items xs ys

-- `topRankIsTied`
abbrev pub top_rank_is_tied : List ScoreBreakdown → Bool
top_rank_is_tied [] = false
top_rank_is_tied (w ∷ []) = false
top_rank_is_tied (w ∷ r ∷ rest) = has_exact_rank_tie w r

-- `rankReasons`
abbrev pub is_rank_reason : ReasonCode → Bool
is_rank_reason r = r == selected_highest_score || r == lower_score || r == stable_tie_break

-- `actualRankReasons`
unfoldable pub rank_reasons_of : List ReasonCode → List ReasonCode
rank_reasons_of [] = []
rank_reasons_of (r ∷ rs) = if is_rank_reason r then r ∷ rank_reasons_of rs else rank_reasons_of rs

-- The reason of the first candidate, and that of a later one.
abbrev pub winner_reason : Bool → ReasonCode
winner_reason tied = if tied then stable_tie_break else selected_highest_score

abbrev pub later_reason : Bool → ScoreBreakdown → ScoreBreakdown → ReasonCode
later_reason tied w s = if tied && has_exact_rank_tie w s then stable_tie_break else lower_score

abbrev pub explains : ReasonCode → EligibleCandidate → Bool
explains r e = same_items (rank_reasons_of e.reason_codes) (r ∷ [])

-- Every candidate has the one rank reason that its place asks for.
abbrev pub are_explained : List EligibleCandidate → Bool
are_explained [] = true
are_explained (w ∷ rest) =
    let tied = top_rank_is_tied (map (λ e. e.score_breakdown) (w ∷ rest)) in
    explains (winner_reason tied) w
    && all (λ e. explains (later_reason tied w.score_breakdown e.score_breakdown) e) rest

-- `selectedRecords`
unfoldable pub selected_records : List EligibleCandidate → List EligibleCandidate
selected_records [] = []
selected_records (e ∷ es) = if e.selected then e ∷ selected_records es else selected_records es

abbrev pub is_first_selected : List EligibleCandidate → Bool
is_first_selected [] = false
is_first_selected (e ∷ es) = e.selected

-- The tests of a decision that selects a candidate.
abbrev pub selection_agrees :
    RoutingDecision → Option CandidateIdentity → List EligibleCandidate → Bool
selection_agrees d (some winner) (s ∷ []) =
    eligible_id s == winner.candidate_id
    && is_first_selected d.eligible_candidates
    && same_items s.reason_codes d.reason_codes
selection_agrees d _ _ = false

abbrev pub is_absent : Option CandidateIdentity → Bool
is_absent none = true
is_absent (some i) = false

-- The tests of a decision that selects none.
abbrev pub nothing_selected : RoutingDecision → Bool
nothing_selected d =
    is_absent d.selected_candidate
    && nat_eq (length d.eligible_candidates) 0
    && same_items d.reason_codes (no_compatible_runtime ∷ [])

-- `superRefine`
unfoldable pub decision_checks : RoutingDecision → List Bool
unfolding all_distinct includes all sort_by same_items rank_reasons_of selected_records
decision_checks d =
    all_distinct (candidate_ids d)
    ∷ snapshots_match (map (λ s. s.candidate_id) d.health_snapshots) (candidate_ids d)
    ∷ same_items (map eligible_id d.eligible_candidates)
        (map eligible_id (sort_by compare_eligible d.eligible_candidates))
    ∷ are_explained d.eligible_candidates
    ∷ (if d.outcome
        then selection_agrees d d.selected_candidate (selected_records d.eligible_candidates)
        else nothing_selected d)
    ∷ []

-- `selectedCandidate: RoutingCandidateIdentitySchema.nullable()`
abbrev pub parse_selected : Option CandidateIdentity → Option (Option CandidateIdentity)
parse_selected none = some none
parse_selected (some i) = parse_identity i >>= λ j. some (some j)

-- `RoutingDecisionSchema`
unfoldable pub parse_decision : RoutingDecision → Option RoutingDecision
unfolding is_routing_decision_id is_tenant_id is_request_id is_registry_version parse_identity
    parse_eligible parse_rejected is_snapshot are_reasons decision_checks map_option all passes
parse_decision raw = do
  accept (
      is_routing_decision_id raw.decision_id
      && is_tenant_id raw.tenant_id
      && is_request_id raw.request_id
      && is_registry_version raw.capability_registry_version
      && leb (length raw.eligible_candidates) 64
      && leb (length raw.rejected_candidates) 64
      && are_reasons raw.reason_codes
      && leb 1 (length raw.health_snapshots)
      && leb (length raw.health_snapshots) 64
      && all is_snapshot raw.health_snapshots
      && is_policy raw.fallback_policy)
  selected ← parse_selected raw.selected_candidate
  eligible ← map_option parse_eligible raw.eligible_candidates
  rejected ← map_option parse_rejected raw.rejected_candidates
  let d = record raw {
    selected_candidate = selected;
    eligible_candidates = eligible;
    rejected_candidates = rejected;
  }
  accept (passes (decision_checks d))
  some d
