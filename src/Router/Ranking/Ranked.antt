-- ===== src/Router/Ranking/Ranked.antt =====
-- router/src/router.ts: `rankedCandidates`.
use Prim.Native.Nat.{Ordering}
use mathlib.Core.List.{Permᴰ}
use surfgate.Common.{
  ℕ, ◌<◌, ◌≡◌, ◌≢◌, ◌∙◌, refl, ap, inl, inr, true, false, List, [], ◌∷◌, all_distinct, map, ltb,
  ltb→lt, Bool-cases, arith,
}
use surfgate.Common.Rows.{Forall, Pairwise}
use surfgate.Common.Comparisons.{flip, or_else, larger_first}
use surfgate.Common.Sorted.{IsFirst, IsSorted, sort_by-Permᴰ, sort_by-IsSorted, sort_by_unique}
use surfgate.Common.Permuted.{all_distinct-IsStrict}
use surfgate.Contracts.Text.{Text, text_eq, text_lt}
use surfgate.Router.Candidate.{compare_text}
use surfgate.Router.Scoring.Score.{ScoredCandidate}
use surfgate.Router.Ranking.Rank.{compare_scored}
use surfgate.Router.Ranking.Order.{
  compare_text-IsComparison, compare_scored-IsComparison, compare_scored-eq,
}
use surfgate.Router.Ranking.Decide.{ranked_candidates}

-- What the documented order of the ranking says of two candidates, the first before the second.
pub data Precedes (x y : ScoredCandidate) : Type 0 where
  by_total : y.score_breakdown.total_score < x.score_breakdown.total_score → Precedes x y
  by_preference :
      x.score_breakdown.total_score ≡ y.score_breakdown.total_score
      → y.score_breakdown.preference_score < x.score_breakdown.preference_score
      → Precedes x y
  by_efficiency :
      x.score_breakdown.total_score ≡ y.score_breakdown.total_score
      → x.score_breakdown.preference_score ≡ y.score_breakdown.preference_score
      → y.score_breakdown.efficiency_score < x.score_breakdown.efficiency_score
      → Precedes x y
  by_identifier :
      x.score_breakdown.total_score ≡ y.score_breakdown.total_score
      → x.score_breakdown.preference_score ≡ y.score_breakdown.preference_score
      → x.score_breakdown.efficiency_score ≡ y.score_breakdown.efficiency_score
      → text_lt y.candidate.candidate_id x.candidate.candidate_id ≡ false
      → Precedes x y

-- How the comparison of two numbers decides a ranking.
data Decides (m n : ℕ) (rest : Ordering) : Type 0 where
  larger : n < m → Decides m n rest
  same : m ≡ n → rest ≢ Ordering.gt → Decides m n rest

decided :
    (m n : ℕ) (rest : Ordering) → or_else (larger_first m n) rest ≢ Ordering.gt → Decides m n rest
decided m n rest h = elim (Bool-cases (ltb n m)) [
  | inl e ↦ larger (ltb→lt n m e)
  | inr e ↦ elim (Bool-cases (ltb m n)) [
    | inl k ↦ absurd (h (ground (arith, e, k)))
    | inr k ↦ same (ground (arith, e, k)) (λ g. h (ground (arith, e, k, g)))
  ]
]

not_behind : (s t : Text) → compare_text s t ≢ Ordering.gt → text_lt t s ≡ false
unfolding compare_text
not_behind s t h = elim (Bool-cases (text_lt t s)) [
  | inl e ↦ absurd (h (compare_text-IsComparison.flips t s ∙ ap flip (first t s e)))
  | inr e ↦ e
]
  where
    first : (l r : Text) → text_lt l r ≡ true → compare_text l r ≡ Ordering.lt
    first l r e = rw e refl

in_order-Precedes : (x y : ScoredCandidate) → compare_scored x y ≢ Ordering.gt → Precedes x y
in_order-Precedes x y h =
    elim (decided x.score_breakdown.total_score y.score_breakdown.total_score _ h) [
      | larger a ↦ by_total a
      | same a k ↦
          elim (decided x.score_breakdown.preference_score y.score_breakdown.preference_score _ k) [
            | larger b ↦ by_preference a b
            | same b l ↦
                elim (decided x.score_breakdown.efficiency_score y.score_breakdown.efficiency_score
                  _ l) [
                    | larger c ↦ by_efficiency a b c
                    | same c m ↦
                        by_identifier a b c
                          (not_behind x.candidate.candidate_id y.candidate.candidate_id m)
                  ]
          ]
    ]

first-Precedes :
    (x : ScoredCandidate) (ys : List ScoredCandidate)
    → IsFirst compare_scored x ys
    → Forall (Precedes x) ys
first-Precedes x [] h = tt
first-Precedes x (y ∷ ys) h = (in_order-Precedes x y h.0, first-Precedes x ys h.1)

sorted-Precedes : (xs : List ScoredCandidate) → IsSorted compare_scored xs → Pairwise Precedes xs
sorted-Precedes [] h = tt
sorted-Precedes (x ∷ xs) h = (first-Precedes x xs h.0, sorted-Precedes xs h.1)

-- The ranking of scored candidates holds the same candidates. Of any two, the one before has the
-- larger total score, or the same and the larger preference, or the same and the larger efficiency,
-- or the same of all three, and then the identifier of the other is not smaller.
pub ranked_candidates-Precedes :
    (ss : List ScoredCandidate)
    → Permᴰ (ranked_candidates ss) ss × Pairwise Precedes (ranked_candidates ss)
ranked_candidates-Precedes ss = (
  sort_by-Permᴰ compare_scored ss,
  sorted-Precedes _ (sort_by-IsSorted compare_scored compare_scored-IsComparison ss),
)

-- Scored candidates whose identifiers differ are ranked alike in whatever order they come.
pub ranking_unique :
    {l m : List ScoredCandidate}
    → Permᴰ l m
    → all_distinct (map (λ s. s.candidate.candidate_id) l) ≡ true
    → ranked_candidates l ≡ ranked_candidates m
ranking_unique {l} d h =
    sort_by_unique compare_scored compare_scored-IsComparison d
      (all_distinct-IsStrict (λ s. s.candidate.candidate_id) compare_scored-eq l h)
