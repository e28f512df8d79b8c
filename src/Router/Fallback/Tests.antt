-- ===== src/Router/Fallback/Tests.antt =====
-- An allocation that falls back from Kitesurf to Chromium, and the theorems at it.
use surfgate.Common.{
  ◌≤◌, ◌≡◌, refl, ◌↔◌, ◌⊎◌, true, false, none, some, List, [], ◌∷◌, ok, err, length, passes,
  includes, all_distinct, ℕ_discrete,
}
use surfgate.Contracts.Text.{codes, Text-discrete}
use surfgate.Provider.Error.{rate_limited, allocate, unsupported, is_retryable}
use surfgate.Router.Reason.{ReasonCode-discrete}
use surfgate.Router.Identity.{CandidateIdentity, parse_identity}
use surfgate.Router.Fallback.Classify.{
  provider_rate_limited, classify_provider_error, classify-eligible_iff, classify_fallback_failure,
}
use surfgate.Router.Fallback.State.{
  FallbackPolicy, FallbackState, requested, allocating, parse_state, parse_shape,
}
use surfgate.Router.Fallback.Transition.{
  FallbackEvent, route_selected, allocation_started, allocation_failed, parse_event,
  invalid_transition, create_fallback_state, stored, after_failure, transition,
  transition_fallback_state,
}
use surfgate.Router.Fallback.Invariant.{Inv}
use surfgate.Router.Fallback.Moves.{
  Moves, is_fallback, MayFallBack, transition_total, fallback_iff, policy_of,
}
use surfgate.Router.Fallback.Bounded.{History, here, accepted, starts_in, allocation_bounded}

abbrev kitesurf_candidate : CandidateIdentity
kitesurf_candidate = record {
  candidate_id = codes "cloudflare::kitesurf::-::=eu%20west";
  provider_id = codes "cloudflare";
  runtime_class = codes "kitesurf";
  region = none;
  config_profile = some (codes "eu west");
}

abbrev chromium_candidate : CandidateIdentity
chromium_candidate = record {
  candidate_id = codes "cloudflare::chromium::-::-";
  provider_id = codes "cloudflare";
  runtime_class = codes "chromium";
  region = none;
  config_profile = none;
}

abbrev one_fallback : FallbackPolicy
one_fallback = record { allowed = true; maximum_cross_runtime_fallbacks = 1 }

abbrev first_try : FallbackState
first_try = allocating kitesurf_candidate kitesurf_candidate one_fallback

abbrev busy : FallbackEvent
busy = allocation_failed provider_rate_limited (some chromium_candidate)

kitesurf_candidate_parsed : parse_identity kitesurf_candidate ≡ some kitesurf_candidate
unfolding parse_identity
kitesurf_candidate_parsed = refl

chromium_candidate_parsed : parse_identity chromium_candidate ≡ some chromium_candidate
unfolding parse_identity
chromium_candidate_parsed = refl

busy_parsed : parse_event busy ≡ some busy
unfolding parse_event parse_identity
busy_parsed = refl

first_try-Inv : Inv first_try
unfolding parse_shape all_distinct includes
first_try-Inv = record {
  shape = unfold parse_identity in refl;
  checks = (unfold Text-discrete ℕ_discrete in refl, (refl, (refl, (refl, (refl, tt)))));
}

second_try : FallbackState
unfolding after_failure
second_try =
    after_failure kitesurf_candidate kitesurf_candidate one_fallback provider_rate_limited
      (some chromium_candidate)

events : List FallbackEvent
events = busy ∷ allocation_started ∷ route_selected kitesurf_candidate ∷ []

routed_parsed :
    parse_event (route_selected kitesurf_candidate) ≡ some (route_selected kitesurf_candidate)
unfolding parse_event parse_identity
routed_parsed = refl

fallback-History : History (requested one_fallback) events second_try
unfolding events second_try transition_fallback_state transition stored parse_state parse_shape
    parse_event parse_identity passes all_distinct includes classify_fallback_failure
    ReasonCode-discrete Text-discrete ℕ_discrete
fallback-History =
    accepted busy
      (accepted allocation_started
        (accepted (route_selected kitesurf_candidate) here routed_parsed refl) refl refl)
      busy_parsed refl

first_fails : transition_fallback_state first_try busy ≡ ok second_try
unfolding second_try transition_fallback_state transition stored parse_state parse_shape parse_event
    parse_identity passes all_distinct includes classify_fallback_failure ReasonCode-discrete
first_fails = refl

created : create_fallback_state one_fallback ≡ ok (requested one_fallback)
unfolding create_fallback_state stored parse_state parse_shape passes
created = refl

classify-eligible_iff_example :
    ((classify_provider_error rate_limited allocate).eligible ≡ true)
    ↔ ((allocate ≡ allocate) × ((is_retryable rate_limited ≡ true) ⊎ (rate_limited ≡ unsupported)))
classify-eligible_iff_example = classify-eligible_iff rate_limited allocate

transition_total_example :
    (true ≡ true → Moves first_try busy (transition_fallback_state first_try busy))
    × (true ≡ false → transition_fallback_state first_try busy ≡ err invalid_transition)
transition_total_example = transition_total first_try busy first_try-Inv busy_parsed

fallback_iff_example :
    (is_fallback second_try ≡ true)
    ↔ MayFallBack one_fallback kitesurf_candidate provider_rate_limited chromium_candidate
fallback_iff_example =
    fallback_iff kitesurf_candidate kitesurf_candidate chromium_candidate one_fallback
      provider_rate_limited second_try first_try-Inv busy_parsed first_fails

allocation_bounded_example :
    (starts_in events ≤ 2)
    × (length events ≤ 5)
    × Inv second_try
    × (policy_of second_try ≡ one_fallback)
allocation_bounded_example =
    allocation_bounded one_fallback (requested one_fallback) second_try events refl created
      fallback-History
