-- ===== src/Router/Ranking/Order.antt =====
-- router/src/scoring.ts: `compareRankedCandidates` as a comparison.
use Prim.Native.Nat.{Ordering}
use surfgate.Common.{◌≡◌, refl, ap, [], ◌∷◌, arith, ltb, nat_eq, if◌then◌else◌, ℕ}
use surfgate.Common.Comparisons.{
  flip, or_else-eq, IsComparison, larger_first, larger_first-IsComparison, or_else-IsComparison,
  pulled_back,
}
use surfgate.Contracts.Text.{Text, text_lt}
use surfgate.Router.Candidate.{compare_text, compare_candidates}
use surfgate.Router.Scoring.Score.{ScoredCandidate}
use surfgate.Router.Ranking.Rank.{compare_scored}

compare_text-cons :
    (c d : ℕ) (s t : Text)
    → compare_text (c ∷ s) (d ∷ t)
      ≡ (if nat_eq c d then compare_text s t else if ltb c d then Ordering.lt else Ordering.gt)
unfolding compare_text text_lt
compare_text-cons c d s t = ground arith

pub compare_text_refl : (s : Text) → compare_text s s ≡ Ordering.eq
unfolding compare_text text_lt
compare_text_refl [] = refl
compare_text_refl (c ∷ s) = ground (arith, compare_text-cons c c s s, compare_text_refl s)

pub compare_text-eq : (s t : Text) → compare_text s t ≡ Ordering.eq → s ≡ t
unfolding compare_text text_lt
compare_text-eq [] [] h = refl
compare_text-eq [] (d ∷ t) h = cc
compare_text-eq (c ∷ s) [] h = cc
compare_text-eq (c ∷ s) (d ∷ t) h = ground (arith, compare_text-cons c d s t, compare_text-eq s t)

compare_text-flips : (s t : Text) → compare_text t s ≡ flip (compare_text s t)
unfolding compare_text text_lt
compare_text-flips [] [] = refl
compare_text-flips [] (d ∷ t) = refl
compare_text-flips (c ∷ s) [] = refl
compare_text-flips (c ∷ s) (d ∷ t) =
    ground (arith, compare_text-cons c d s t, compare_text-cons d c t s, compare_text-flips s t)

compare_text_trans :
    (s t u : Text)
    → compare_text s t ≡ Ordering.lt
    → compare_text t u ≡ Ordering.lt
    → compare_text s u ≡ Ordering.lt
unfolding compare_text text_lt
compare_text_trans [] [] u h k = cc
compare_text_trans [] (d ∷ t) [] h k = cc
compare_text_trans [] (d ∷ t) (e ∷ u) h k = refl
compare_text_trans (c ∷ s) [] u h k = cc
compare_text_trans (c ∷ s) (d ∷ t) [] h k = cc
compare_text_trans (c ∷ s) (d ∷ t) (e ∷ u) h k = ground (
  arith,
  compare_text-cons c d s t,
  compare_text-cons d e t u,
  compare_text-cons c e s u,
  compare_text_trans s t u,
)

pub compare_text-IsComparison : IsComparison compare_text
compare_text-IsComparison = record {
  flips = compare_text-flips;
  lt_trans = compare_text_trans;
  same = λ s t u h. ap (λ v. compare_text v u) (compare_text-eq s t h);
}

pub compare_scored-IsComparison : IsComparison compare_scored
compare_scored-IsComparison =
    or_else-IsComparison
      (pulled_back (λ s. s.score_breakdown.total_score) larger_first-IsComparison)
      (or_else-IsComparison
        (pulled_back (λ s. s.score_breakdown.preference_score) larger_first-IsComparison)
        (or_else-IsComparison
          (pulled_back (λ s. s.score_breakdown.efficiency_score) larger_first-IsComparison)
          (pulled_back (λ s. s.candidate.candidate_id) compare_text-IsComparison)))

pub compare_candidates-IsComparison : IsComparison compare_candidates
compare_candidates-IsComparison = pulled_back (λ c. c.candidate_id) compare_text-IsComparison

-- The comparison of scored candidates tells apart what their identifiers tell apart.
pub compare_scored-eq :
    (x y : ScoredCandidate)
    → compare_scored x y ≡ Ordering.eq
    → x.candidate.candidate_id ≡ y.candidate.candidate_id
compare_scored-eq x y h =
    let first =
      or_else-eq (larger_first x.score_breakdown.total_score y.score_breakdown.total_score) _ h in
    let second =
      or_else-eq
        (larger_first x.score_breakdown.preference_score y.score_breakdown.preference_score) _
        first.1 in
    compare_text-eq _ _
      (or_else-eq
        (larger_first x.score_breakdown.efficiency_score y.score_breakdown.efficiency_score) _
        second.1).1
