-- ===== src/Router/Ranking/Judged.antt =====
-- router/src/router.ts: the loop of `routeBrowserRuntime` over the candidates.

use surfgate.Common.{
  ◌≡◌, refl, subst, ◌&&◌, ◌==◌, leb, length, Option, none, some, List, [], ◌∷◌, map,
}
use surfgate.Common.Maybe.{◌>>=◌, accept}
use surfgate.Contracts.Text.{Text, text_eq, is_slug}
use surfgate.Provider.Descriptor.{parse_location}
use surfgate.Provider.Health.{is_health}
use surfgate.Router.Reason.{ReasonCode}
use surfgate.Router.Identity.{
  CandidateIdentity, parse_identity, is_candidate_id, create_candidate_id_from_identity,
  components_of,
}
use surfgate.Router.Candidate.{RoutingCandidate, parse_candidate, is_safety}
use surfgate.Router.Input.{RoutingInput}
use surfgate.Router.Eligibility.Rules.{
  Eligibility, eligible, rejected, evaluate_candidate_eligibility,
}
use surfgate.Router.Scoring.Score.{
  ScoredCandidate, score_eligible_candidate, parse_scored, is_breakdown, efficiency_of,
  signal_score, scored_of,
}
use surfgate.Router.Policy.{runtime_efficiency_score}
use surfgate.Router.Ranking.Decision.{rejected_id}
use surfgate.Router.Ranking.Decide.{to_routing_candidate_identity, Judged, judge, judge_all}

-- What holds of the value of a result, if it has one.
abbrev Holds : {B : Type 0} → (B → Type 0) → Option B → Type 0
Holds P none = Unit {0}
Holds P (some y) = P y

bound :
    {A B : Type 0} (P : B → Type 0) (m : Option A) (f : A → Option B)
    → ((x : A) → Holds P (f x))
    → Holds P (m >>= f)
bound P none f h = tt
bound P (some x) f h = h x

abbrev pub scored_id : ScoredCandidate → Text
scored_id s = s.candidate.candidate_id

parse_candidate-id :
    (c : RoutingCandidate) → Holds (λ d. d.candidate_id ≡ c.candidate_id) (parse_candidate c)
unfolding parse_candidate
parse_candidate-id c =
    let P = λ (d : RoutingCandidate). d.candidate_id ≡ c.candidate_id in
    bound P
      (accept (is_candidate_id c.candidate_id && is_slug c.provider_id && is_slug c.runtime_class))
      _
      (λ _. bound P (parse_location c.region) _ (λ r.
        bound P (parse_location c.config_profile) _
          (λ q. bound P (accept (is_health c.health && is_safety c.safety)) _ (λ _. refl))))

bound_of :
    {A B : Type 0} (Q : A → Type 0) (P : B → Type 0) (m : Option A) (f : A → Option B)
    → Holds Q m
    → ((x : A) → Q x → Holds P (f x))
    → Holds P (m >>= f)
bound_of Q P none f q h = tt
bound_of Q P (some x) f q h = h x q

parse_scored-id : (s : ScoredCandidate) → Holds (λ t. scored_id t ≡ scored_id s) (parse_scored s)
unfolding parse_scored
parse_scored-id s =
    let P = λ (t : ScoredCandidate). scored_id t ≡ scored_id s in
    bound_of (λ d. d.candidate_id ≡ scored_id s) P (parse_candidate s.candidate) _
      (parse_candidate-id s.candidate)
      (λ d q.
        bound P (accept (is_breakdown s.score_breakdown && leb 1 (length s.reason_codes))) _
          (λ _. q))

score-id :
    (c : RoutingCandidate) (rs : List ReasonCode) (i : RoutingInput)
    → Holds (λ s. scored_id s ≡ c.candidate_id) (score_eligible_candidate c rs i)
unfolding score_eligible_candidate
score-id c rs i =
    bound (λ s. scored_id s ≡ c.candidate_id)
      (efficiency_of (signal_score i.signals.efficiency c.candidate_id)
        (runtime_efficiency_score c.runtime_class))
      _ (λ e. parse_scored-id (scored_of c rs i e))

parse_identity-id :
    (i : CandidateIdentity) → Holds (λ j. j.candidate_id ≡ i.candidate_id) (parse_identity i)
unfolding parse_identity
parse_identity-id i =
    let P = λ (j : CandidateIdentity). j.candidate_id ≡ i.candidate_id in
    bound P
      (accept (is_candidate_id i.candidate_id && is_slug i.provider_id && is_slug i.runtime_class))
      _
      (λ _. bound P (parse_location i.region) _ (λ r.
        bound P (parse_location i.config_profile) _ (λ q.
          bound P
            (create_candidate_id_from_identity
              (components_of (record i { region = r; config_profile = q })))
            _ (λ id. bound P (accept (id == i.candidate_id)) _ (λ _. refl)))))

-- The identifiers of the candidates that are found eligible, and of the others.
abbrev kept : Eligibility → Text → List Text → List Text
kept (eligible rs) id ids = id ∷ ids
kept (rejected rs) id ids = ids

abbrev dropped : Eligibility → Text → List Text → List Text
dropped (eligible rs) id ids = ids
dropped (rejected rs) id ids = id ∷ ids

unfoldable pub eligible_ids : RoutingInput → List RoutingCandidate → List Text
eligible_ids i [] = []
eligible_ids i (c ∷ cs) =
    kept (evaluate_candidate_eligibility c i) c.candidate_id (eligible_ids i cs)

unfoldable pub rejected_ids : RoutingInput → List RoutingCandidate → List Text
rejected_ids i [] = []
rejected_ids i (c ∷ cs) =
    dropped (evaluate_candidate_eligibility c i) c.candidate_id (rejected_ids i cs)

abbrev Divides : List Text → List Text → Judged → Type 0
Divides yes_ids no_ids j =
    (map scored_id j.scored_candidates ≡ yes_ids) × (map rejected_id j.rejected_candidates ≡ no_ids)

cons_eq : {x y : Text} {xs ys : List Text} → x ≡ y → xs ≡ ys → x ∷ xs ≡ y ∷ ys
cons_eq e h = cc

judge-Divides :
    (c : RoutingCandidate) (i : RoutingInput) (e : Eligibility) (ys ns : List Text) (j : Judged)
    → Divides ys ns j
    → Holds (Divides (kept e c.candidate_id ys) (dropped e c.candidate_id ns)) (judge c i e j)
unfolding to_routing_candidate_identity
judge-Divides c i (eligible rs) ys ns j (y, n) =
    bound_of (λ s. scored_id s ≡ c.candidate_id) (Divides (c.candidate_id ∷ ys) ns)
      (score_eligible_candidate c rs i) _ (score-id c rs i) (λ s q. (cons_eq q y, n))
judge-Divides c i (rejected rs) ys ns j (y, n) =
    bound_of (λ r. r.candidate_id ≡ c.candidate_id) (Divides ys (c.candidate_id ∷ ns))
      (to_routing_candidate_identity c) _
      (parse_identity-id (record {
        candidate_id = c.candidate_id;
        provider_id = c.provider_id;
        runtime_class = c.runtime_class;
        region = c.region;
        config_profile = c.config_profile;
      }))
      (λ r q. (y, cons_eq q n))

judge_all-Divides :
    (i : RoutingInput) (cs : List RoutingCandidate)
    → Holds (Divides (eligible_ids i cs) (rejected_ids i cs)) (judge_all i cs)
unfolding judge_all eligible_ids rejected_ids
judge_all-Divides i [] = (refl, refl)
judge_all-Divides i (c ∷ cs) =
    let e = evaluate_candidate_eligibility c i in
    bound_of (Divides (eligible_ids i cs) (rejected_ids i cs))
      (Divides (kept e c.candidate_id (eligible_ids i cs))
        (dropped e c.candidate_id (rejected_ids i cs)))
      (judge_all i cs) _ (judge_all-Divides i cs)
      (judge-Divides c i e (eligible_ids i cs) (rejected_ids i cs))

-- Where the loop over the candidates does not throw, it scores exactly those that are found eligible, and rejects exactly
-- the others, each of them once and in the order of the candidates.
pub judge_all_divides :
    (i : RoutingInput) (cs : List RoutingCandidate) (j : Judged)
    → judge_all i cs ≡ some j
    → (map scored_id j.scored_candidates ≡ eligible_ids i cs)
      × (map rejected_id j.rejected_candidates ≡ rejected_ids i cs)
judge_all_divides i cs j h =
    subst (Holds (Divides (eligible_ids i cs) (rejected_ids i cs))) h (judge_all-Divides i cs)
