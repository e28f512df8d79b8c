-- ===== src/Router/Ranking/Sources.antt =====
-- router/src/router.ts: `routeBrowserRuntime` and the order of the sources.
use mathlib.Core.List.{Permᴰ}
use surfgate.Common.{◌≡◌, refl, ap, List, [], ◌∷◌, Option, none, some, Bool, true, false, fun_ext}
use surfgate.Common.Maybe.{◌>>=◌, ◌>>◌, accept}
use surfgate.Common.Permuted.{
  Alike, fail, hold, length-Permᴰ, includes-Permᴰ, all_distinct-Permᴰ, all-cong,
}
use surfgate.Contracts.Text.{Text, text_eq}
use surfgate.Router.Identity.{create_candidate_id}
use surfgate.Router.Candidate.{RoutingCandidate, InputSource, parse_source}
use surfgate.Router.Input.{RoutingInput, parse_input, ScoreSignal, signals_known}
use surfgate.Router.Reason.{ReasonCode}
use surfgate.Contracts.Capabilities.{CapabilityName, capability_names}
use surfgate.Router.Eligibility.Rules.{
  Eligibility, eligible, rejected, conclude, context_reasons, evaluate_candidate_eligibility,
  rejection_reasons, all_capability_reasons,
}
use surfgate.Router.Scoring.Score.{
  score_eligible_candidate, breakdown_of, compatibility_score, score_reasons, preference_score,
  preferred_among,
}
use surfgate.Router.Ranking.Decide.{route_browser_runtime, judge_all, judge, Judged, route_checked}
use surfgate.Router.Ranking.Unordered.{build-Permᴰ, map_option-Alike}

abbrev pub with_sources : RoutingInput → List InputSource → RoutingInput
with_sources i sources = record i { candidate_sources = sources }

-- Two results that differ in the order of the sources only.
data Reordered (i : RoutingInput) : Option RoutingInput → Option RoutingInput → Type 0 where
  neither : Reordered i none none
  both :
      {l m : List InputSource}
      → Permᴰ l m
      → Reordered i (some (with_sources i l)) (some (with_sources i m))

bind-Reordered :
    {A : Type 0} {i : RoutingInput} {p q : Option (List A)} (g h : List A → Option RoutingInput)
    → Alike p q
    → ((l m : List A) → Permᴰ l m → Reordered i (g l) (h m))
    → Reordered i (p >>= g) (q >>= h)
bind-Reordered g h fail k = neither
bind-Reordered g h (hold d) k = k _ _ d

accepted :
    {i : RoutingInput} {p q : Option RoutingInput} (b : Bool)
    → Reordered i p q
    → Reordered i (accept b >> p) (accept b >> q)
accepted true r = r
accepted false r = neither

signals_known-Permᴰ :
    {l m : List Text}
    → Permᴰ l m
    → (ss : List ScoreSignal) → signals_known l ss ≡ signals_known m ss
signals_known-Permᴰ d ss = rw (all-cong (λ s. includes-Permᴰ d s.candidate_id) ss)

module _ (i : RoutingInput) (l m : List InputSource) where
  capability_reasons-sources :
      (c : RoutingCandidate) (names : List CapabilityName) (rs : List ReasonCode)
      → all_capability_reasons c (with_sources i l) names rs
        ≡ all_capability_reasons c (with_sources i m) names rs
  unfolding all_capability_reasons
  capability_reasons-sources c [] rs = refl
  capability_reasons-sources c (name ∷ names) rs = capability_reasons-sources c names _

  preferred_among-sources :
      (names : List CapabilityName)
      → preferred_among (with_sources i l) names ≡ preferred_among (with_sources i m) names
  unfolding preferred_among
  preferred_among-sources [] = refl
  preferred_among-sources (name ∷ names) = rw (preferred_among-sources names)

  evaluate-sources :
      (c : RoutingCandidate)
      → evaluate_candidate_eligibility c (with_sources i l)
        ≡ evaluate_candidate_eligibility c (with_sources i m)
  unfolding evaluate_candidate_eligibility rejection_reasons
  evaluate-sources c =
      ap
        (λ rs.
          conclude rs
            (context_reasons c.configured c.health.status i.tenant_policy.allow_degraded_providers))
        (capability_reasons-sources c capability_names _)

  score-sources :
      (c : RoutingCandidate) (rs : List ReasonCode)
      → score_eligible_candidate c rs (with_sources i l)
        ≡ score_eligible_candidate c rs (with_sources i m)
  unfolding score_eligible_candidate breakdown_of compatibility_score score_reasons preference_score
  score-sources c rs = rw (preferred_among-sources capability_names)

  judge-sources :
      (c : RoutingCandidate) (e : Eligibility) (j : Judged)
      → judge c (with_sources i l) e j ≡ judge c (with_sources i m) e j
  judge-sources c (eligible rs) j = rw (score-sources c rs)
  judge-sources c (rejected rs) j = refl

  pub judge_all-sources :
      (cs : List RoutingCandidate)
      → judge_all (with_sources i l) cs ≡ judge_all (with_sources i m) cs
  unfolding judge_all
  judge_all-sources [] = refl
  judge_all-sources (c ∷ cs) = rw (
    judge_all-sources cs,
    evaluate-sources c,
    fun_ext (judge-sources c (evaluate_candidate_eligibility c (with_sources i m))),
  )

parse_input-Reordered :
    (i : RoutingInput) {l m : List InputSource}
    → Permᴰ l m
    → Reordered i (parse_input (with_sources i l)) (parse_input (with_sources i m))
unfolding parse_input
parse_input-Reordered i {l} {m} d = rw (length-Permᴰ d) (
    accepted _ (
      bind-Reordered _ _ (map_option-Alike parse_source d) (λ _ _ f.
        bind-Reordered _ _ (map_option-Alike (λ s. create_candidate_id s.descriptor) f) (λ j k g.
          rw
            (
              all_distinct-Permᴰ g,
              signals_known-Permᴰ g i.signals.compatibility,
              signals_known-Permᴰ g i.signals.efficiency,
              signals_known-Permᴰ g i.signals.latency,
            )
            (accepted _ (both f))))))

-- What follows the check of the request.
route_checked-Permᴰ :
    (i : RoutingInput) {l m : List InputSource}
    → Permᴰ l m
    → route_checked (with_sources i l) ≡ route_checked (with_sources i m)
unfolding route_checked
route_checked-Permᴰ i {l} {m} d = rw (build-Permᴰ d, fun_ext (judge_all-sources i l m))

routed_alike :
    {i : RoutingInput} {p q : Option RoutingInput}
    → Reordered i p q
    → (p >>= route_checked) ≡ (q >>= route_checked)
routed_alike neither = refl
routed_alike {i} (both d) = route_checked-Permᴰ i d

-- Requests that list the same sources in another order are answered with the same decision, or refused alike.
pub route-sources :
    (i : RoutingInput) {l m : List InputSource}
    → Permᴰ l m
    → route_browser_runtime (with_sources i l) ≡ route_browser_runtime (with_sources i m)
unfolding route_browser_runtime
route-sources i d = routed_alike (parse_input-Reordered i d)
