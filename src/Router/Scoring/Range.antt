-- ===== src/Router/Scoring/Range.antt =====
-- router/src/scoring.ts: the range of the scores, and what scoring returns.
use native.Mathlib.Nat.{div-lt_iff_lt-mul}
use surfgate.Common.{
  ℕ, suc, zero, ◌+◌, ◌*◌, ◌≤◌, ◌<◌, ◌≡◌, refl, inl, inr, Bool, true, false, Option, none, some,
  List, [], ◌∷◌, leb, or_default, length, arith, le→leb, nat_eq_iff, AllTrue-passes, Bool-cases,
  length-append, includes, ltb, any,
}
use surfgate.Common.Maybe.{◌>>=◌}
use surfgate.Contracts.Text.{Text, text_eq}
use surfgate.Contracts.Capabilities.{CapabilityName, capability_names, SupportState}
use surfgate.Provider.Health.{HealthStatus, CapacitySignal}
use surfgate.Router.Reason.{
  reason_eq, ReasonCode, fast_path_preferred, domain_compatibility_low, preferred_capability_match,
  requested_runtime_preference, tenant_runtime_preference,
}
use surfgate.Router.Eligibility.Rules.{add_reason, add_if, effective_allow_experimental}
use surfgate.Router.Policy.{
  points, fast_path_efficiency_threshold, low_compatibility_threshold, runtime_efficiency_score,
  preferred_support_score, health_score, capacity_score,
}
use surfgate.Router.Candidate.{RoutingCandidate, parse_candidate}
use surfgate.Router.Input.{RoutingInput, ScoreSignal}
use surfgate.Router.Scoring.Score.{
  round_div, weighted_total, is_breakdown, signal_score, preference_score, efficiency_of,
  support_total, compatibility_of, ScoredCandidate, breakdown_of, with_total, scored_of,
  compatibility_signal, matches, compatibility_score, score_reasons, parse_scored,
  score_eligible_candidate, preferred_among,
}

weighted_total-le :
    (p e k h l c : ℕ)
    → p ≤ points 100
    → e ≤ points 100
    → k ≤ points 100
    → h ≤ points 100
    → l ≤ points 100
    → c ≤ points 100
    → weighted_total p e k h l c ≤ points 100
unfolding weighted_total
weighted_total-le p e k h l c a b d f g i = omega arith

preferred_support_score-le : (s : SupportState) (b : Bool) → preferred_support_score s b ≤ 100
preferred_support_score-le s b = ground arith

support_total-le :
    (c : RoutingCandidate) (b : Bool) (names : List CapabilityName)
    → support_total c b names ≤ 100 * length names
unfolding support_total
support_total-le c b [] = omega arith
support_total-le c b (name ∷ names) =
    omega (arith, support_total-le c b names, preferred_support_score-le (c.capabilities name) b)

round_div-le : (n d q : ℕ) → 0 < d → n ≤ q * d → round_div n d ≤ q
round_div-le n d q h k =
    let wide : 0 < 2 * d = omega arith in
    let near : 2 * n + d < (q + 1) * (2 * d) = omega (arith, k) in
    let below : round_div n d < q + 1 = (div-lt_iff_lt-mul wide).1 near in omega arith

compatibility_of-le : (s t n : ℕ) → s ≤ 100 → t ≤ 100 * n → compatibility_of s t n ≤ points 100
unfolding compatibility_of
compatibility_of-le s t zero h k = omega arith
compatibility_of-le s t (suc n) h k = round_div-le _ _ _ (omega arith) (grind arith)

-- Every signal of a list is at most 100.
abbrev pub InRange : List ScoreSignal → Type 0
InRange [] = Unit {0}
InRange (s ∷ ss) = (s.score ≤ 100) × InRange ss

signal_score-le :
    (ss : List ScoreSignal) (id : Text) (n : ℕ) → InRange ss → signal_score ss id ≡ some n → n ≤ 100
unfolding signal_score
signal_score-le [] id n h e = cc
signal_score-le (s ∷ ss) id n h e = ground (arith, signal_score-le ss id n h.1)

signal_or_default-le :
    (ss : List ScoreSignal) (id : Text) → InRange ss → or_default (signal_score ss id) 50 ≤ 100
signal_or_default-le ss id h =
    ground (arith, signal_score-le ss id (or_default (signal_score ss id) 50) h)

preference_score-le :
    (c : RoutingCandidate) (i : RoutingInput) (rs : List ReasonCode)
    → (preference_score c i rs).0 ≤ 100
unfolding preference_score
preference_score-le c i rs = ground arith

health_score-le : (s : HealthStatus) → health_score s ≤ 100
health_score-le s = ground arith

capacity_score-le : (s : CapacitySignal) → capacity_score s ≤ 100
capacity_score-le s = ground arith

compatibility_score-le :
    (c : RoutingCandidate) (i : RoutingInput)
    → InRange i.signals.compatibility
    → compatibility_score c i ≤ points 100
unfolding compatibility_score
compatibility_score-le c i h =
    compatibility_of-le _ _ _ (signal_or_default-le _ _ h) (support_total-le c _ _)

with_total-is_breakdown :
    (p e k h l c : ℕ)
    → p ≤ points 100
    → e ≤ points 100
    → k ≤ points 100
    → h ≤ points 100
    → l ≤ points 100
    → c ≤ points 100
    → is_breakdown (with_total p e k h l c) ≡ true
unfolding is_breakdown
with_total-is_breakdown p e k h l c a b d f g i = AllTrue-passes _ (
  le→leb _ _ a,
  (
    le→leb _ _ b,
    (
      le→leb _ _ d,
      (
        le→leb _ _ f,
        (
          le→leb _ _ g,
          (
            le→leb _ _ i,
            (le→leb _ _ (weighted_total-le p e k h l c a b d f g i), ((nat_eq_iff _ _).1 refl, tt)),
          ),
        ),
      ),
    ),
  ),
)

-- A breakdown made from scores in range is one that the schema accepts.
breakdown_of-is_breakdown :
    (c : RoutingCandidate) (i : RoutingInput) (p e : ℕ)
    → InRange i.signals.compatibility
    → InRange i.signals.latency
    → p ≤ 100
    → e ≤ 100
    → is_breakdown (breakdown_of c i p e) ≡ true
unfolding breakdown_of
breakdown_of-is_breakdown c i p e hc hl hp he =
    with_total-is_breakdown _ _ _ _ _ _ (omega arith) (omega arith) (compatibility_score-le c i hc)
      (omega (arith, health_score-le c.health.status))
      (omega (arith, signal_or_default-le i.signals.latency c.candidate_id hl))
      (omega (arith, capacity_score-le c.health.capacity))

add_if-nonempty :
    (b : Bool) (r : ReasonCode) (rs : List ReasonCode) → 1 ≤ length rs → 1 ≤ length (add_if b r rs)
unfolding add_reason
add_if-nonempty true r rs h = elim (Bool-cases (includes rs r)) [
  | inl e ↦ rw e h
  | inr e ↦ rw e (omega (arith, length-append rs (r ∷ [])))
]
add_if-nonempty false r rs h = h

preference_score-nonempty :
    (c : RoutingCandidate) (i : RoutingInput) (rs : List ReasonCode)
    → 1 ≤ length rs
    → 1 ≤ length (preference_score c i rs).1
unfolding preference_score
preference_score-nonempty c i rs h = ground (
  arith,
  add_if-nonempty true requested_runtime_preference rs h,
  add_if-nonempty true tenant_runtime_preference rs h,
)

score_reasons-nonempty :
    (c : RoutingCandidate) (i : RoutingInput) (e : ℕ) (rs : List ReasonCode)
    → 1 ≤ length rs
    → 1 ≤ length (score_reasons c i e rs)
unfolding score_reasons
score_reasons-nonempty c i e rs h =
    let slow = add_if-nonempty (leb fast_path_efficiency_threshold e) fast_path_preferred rs h in
    let low =
      add_if-nonempty (ltb (compatibility_signal c i) low_compatibility_threshold)
        domain_compatibility_low _ slow in
    add_if-nonempty
      (any (matches c (effective_allow_experimental i)) (preferred_among i capability_names))
      preferred_capability_match _ low

parse_scored-accepts :
    (s : ScoredCandidate)
    → parse_candidate s.candidate ≡ some s.candidate
    → is_breakdown s.score_breakdown ≡ true
    → 1 ≤ length s.reason_codes
    → parse_scored s ≡ some s
unfolding parse_scored
parse_scored-accepts s h k l = rw (h, k, le→leb 1 (length s.reason_codes) l)

bind-some :
    {A B : Type 0} (m : Option A) (f g : A → Option B)
    → ((x : A) → m ≡ some x → f x ≡ g x)
    → (m >>= f) ≡ (m >>= g)
bind-some none f g h = refl
bind-some (some x) f g h = h x refl

efficiency_of-le :
    (m : Option ℕ) (t : Text) (e : ℕ)
    → ((n : ℕ) → m ≡ some n → n ≤ 100)
    → efficiency_of m (runtime_efficiency_score t) ≡ some e
    → e ≤ 100
unfolding efficiency_of
efficiency_of-le (some n) t e h q = ground (arith, h n refl)
efficiency_of-le none t e h q = ground arith

-- A candidate that its schema accepts, with a reason at least and signals within their range, is scored, unless
-- nothing gives a number for its efficiency; and then scoring throws.
pub score_eligible_candidate-total :
    (c : RoutingCandidate) (rs : List ReasonCode) (i : RoutingInput)
    → parse_candidate c ≡ some c
    → InRange i.signals.compatibility
    → InRange i.signals.latency
    → InRange i.signals.efficiency
    → 1 ≤ length rs
    → score_eligible_candidate c rs i ≡ (
        efficiency_of
          (signal_score i.signals.efficiency c.candidate_id)
          (runtime_efficiency_score c.runtime_class)
        >>= λ e. some (scored_of c rs i e))
unfolding score_eligible_candidate
score_eligible_candidate-total c rs i hc hk hl he hr = bind-some _ _ _ (λ e q.
    parse_scored-accepts (scored_of c rs i e) hc
      (breakdown_of-is_breakdown c i _ e hk hl (preference_score-le c i rs) (
        efficiency_of-le _ _ e (λ n s. signal_score-le i.signals.efficiency c.candidate_id n he s)
          q))
      (score_reasons-nonempty c i e _ (preference_score-nonempty c i rs hr)))
