-- ===== src/Router/Ranking/Rank.antt =====
-- router/src/scoring.ts: `compareRankedCandidates` and `hasExactRankTie`.
use Prim.Native.Nat.{Ordering}
use surfgate.Common.{Bool, ◌&&◌, nat_eq}
use surfgate.Common.Comparisons.{or_else, larger_first}
use surfgate.Contracts.Text.{Text}
use surfgate.Router.Candidate.{compare_text}
use surfgate.Router.Scoring.Score.{ScoreBreakdown, ScoredCandidate}

-- `RankableCandidate`
pub record Rankable : Type 0 where
  pub candidate_id : Text
  pub score_breakdown : ScoreBreakdown

abbrev pub rankable : ScoredCandidate → Rankable
rankable s = record { candidate_id = s.candidate.candidate_id; score_breakdown = s.score_breakdown }

-- `compareRankedCandidates`
abbrev pub compare_ranked_candidates : Rankable → Rankable → Ordering
compare_ranked_candidates l r =
    or_else (larger_first l.score_breakdown.total_score r.score_breakdown.total_score) (
      or_else (larger_first l.score_breakdown.preference_score r.score_breakdown.preference_score) (
        or_else (larger_first l.score_breakdown.efficiency_score r.score_breakdown.efficiency_score)
          (compare_text l.candidate_id r.candidate_id)))

abbrev pub compare_scored : ScoredCandidate → ScoredCandidate → Ordering
compare_scored l r = compare_ranked_candidates (rankable l) (rankable r)

-- `hasExactRankTie`
abbrev pub has_exact_rank_tie : ScoreBreakdown → ScoreBreakdown → Bool
has_exact_rank_tie l r =
    nat_eq l.total_score r.total_score
    && nat_eq l.preference_score r.preference_score
    && nat_eq l.efficiency_score r.efficiency_score
