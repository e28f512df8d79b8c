-- ===== src/Router/Input.antt =====
-- router/src/routing-input.ts: a routing request with its tenant's policy and its signals.
use surfgate.Common.{
  ℕ, Bool, false, ◌&&◌, Option, some, List, [], ◌∷◌, leb, all_distinct, all_option, includes,
  length, map, all, nat_eq, ◌||◌,
}
use surfgate.Common.Maybe.{◌>>=◌, ◌>>◌, accept}
use surfgate.Contracts.Text.{Text, text_eq, is_slug, is_word, is_alnum}
use surfgate.Contracts.Ids.{is_routing_decision_id, is_tenant_id, is_request_id}
use surfgate.Contracts.Capabilities.{Requirements, RuntimeSelection, RuntimePreference}
use surfgate.Contracts.Tasks.{Timestamp}
use surfgate.Router.Identity.{is_candidate_id, create_candidate_id}
use surfgate.Router.Candidate.{InputSource, parse_source, map_option, is_duration}

pub record ScoreSignal : Type 0 where
  pub candidate_id : Text
  pub score : ℕ

pub record RoutingSignals : Type 0 where
  pub compatibility : List ScoreSignal
  pub efficiency : List ScoreSignal
  pub latency : List ScoreSignal

pub record TenantPolicy : Type 0 where
  pub allowed_provider_ids : Option (List Text)
  pub denied_provider_ids : List Text
  pub allowed_runtime_classes : Option (List Text)
  pub denied_runtime_classes : List Text
  pub preferred_runtime : RuntimePreference
  pub maximum_session_duration_ms : Option ℕ
  pub allow_degraded_providers : Bool
  pub allow_fallback : Bool
  pub allow_experimental : Bool

pub record RoutingInput : Type 0 where
  pub decision_id : Text
  pub tenant_id : Text
  pub request_id : Text
  pub created_at : Timestamp
  pub capability_registry_version : Text
  pub requirements : Requirements
  pub runtime : RuntimeSelection
  pub max_session_duration_ms : ℕ
  pub tenant_policy : TenantPolicy
  pub candidate_sources : List InputSource
  pub signals : RoutingSignals

-- `CandidateScoreSignalsSchema`
abbrev pub are_signals : List ScoreSignal → Bool
are_signals ss =
    leb (length ss) 64 && all (λ s. is_candidate_id s.candidate_id && leb s.score 100) ss

-- `uniqueArray`
abbrev pub is_unique_array : (Text → Bool) → List Text → Bool
is_unique_array p ts = all p ts && leb (length ts) 64 && all_distinct ts

-- `TenantRoutingPolicySchema`
unfoldable pub is_tenant_policy : TenantPolicy → Bool
unfolding all all_distinct is_slug
is_tenant_policy p =
    all_option (λ ts. is_unique_array is_slug ts) p.allowed_provider_ids
    && is_unique_array is_slug p.denied_provider_ids
    && all_option (λ ts. is_unique_array is_slug ts) p.allowed_runtime_classes
    && is_unique_array is_slug p.denied_runtime_classes
    && all_option (λ n. is_duration n) p.maximum_session_duration_ms

-- `/^[A-Za-z0-9][A-Za-z0-9._:-]{0,63}$/u`
unfoldable pub is_registry_version : Text → Bool
unfolding all
is_registry_version [] = false
is_registry_version (c ∷ t) =
    is_alnum c && leb (length t) 63 && all (λ d. is_word d || nat_eq d b'.' || nat_eq d b':') t

-- Each kind of signal names known candidates, and each of them once.
abbrev pub signals_known : List Text → List ScoreSignal → Bool
signals_known ids ss =
    all (λ s. includes ids s.candidate_id) ss && all_distinct (map (λ s. s.candidate_id) ss)

-- `RoutingInputSchema`
unfoldable pub parse_input : RoutingInput → Option RoutingInput
unfolding is_routing_decision_id is_tenant_id is_request_id is_registry_version is_tenant_policy
    is_candidate_id all map_option parse_source create_candidate_id includes all_distinct
parse_input i = do
  accept (
      is_routing_decision_id i.decision_id
      && is_tenant_id i.tenant_id
      && is_request_id i.request_id
      && is_registry_version i.capability_registry_version
      && is_duration i.max_session_duration_ms
      && is_tenant_policy i.tenant_policy
      && leb 1 (length i.candidate_sources)
      && leb (length i.candidate_sources) 64
      && are_signals i.signals.compatibility
      && are_signals i.signals.efficiency
      && are_signals i.signals.latency)
  sources ← map_option parse_source i.candidate_sources
  ids ← map_option (λ s. create_candidate_id s.descriptor) sources
  accept (
      all_distinct ids
      && signals_known ids i.signals.compatibility
      && signals_known ids i.signals.efficiency
      && signals_known ids i.signals.latency)
  some (record i { candidate_sources = sources })
