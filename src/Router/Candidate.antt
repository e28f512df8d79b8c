-- ===== src/Router/Candidate.antt =====
-- router/src/candidate.ts: the sources of a routing request, and the candidates built from them.
use Prim.Native.Nat.{Ordering}
use surfgate.Common.{
  ℕ, ◌*◌, Bool, ◌&&◌, Option, some, List, [], ◌∷◌, if◌then◌else◌, leb, all_distinct, all_option,
  length, map,
}
use surfgate.Common.Maybe.{◌>>=◌, ◌>>◌, accept}
use surfgate.Common.Sorting.{sort_by}
use surfgate.Contracts.Text.{Text, text_eq, text_lt, is_slug}
use surfgate.Contracts.Capabilities.{SupportMap}
use surfgate.Provider.Descriptor.{ProviderDescriptor, parse_descriptor, parse_location}
use surfgate.Provider.Health.{ProviderHealth, is_health}
use surfgate.Router.Identity.{is_candidate_id, create_candidate_id}

abbrev pub max_session_duration_ms : ℕ
max_session_duration_ms = 24 * 60 * 60 * 1000

abbrev pub is_duration : ℕ → Bool
is_duration n = leb 1000 n && leb n max_session_duration_ms

pub data SafetyStatus : Type 0 where
  allowed blocked : SafetyStatus

pub record CandidateSafety : Type 0 where
  pub status : SafetyStatus
  pub maximum_session_duration_ms : Option ℕ

-- `CandidateSafetySchema`
abbrev pub is_safety : CandidateSafety → Bool
is_safety s = all_option (λ n. is_duration n) s.maximum_session_duration_ms

pub record InputSource : Type 0 where
  pub descriptor : ProviderDescriptor
  pub health : ProviderHealth
  pub safety : CandidateSafety

-- `RoutingInputSourceSchema`
unfoldable pub parse_source : InputSource → Option InputSource
unfolding parse_descriptor is_health
parse_source s = do
  d ← parse_descriptor s.descriptor
  accept (is_health s.health && is_safety s.safety)
  some (record s { descriptor = d })

pub record RoutingCandidate : Type 0 where
  pub candidate_id : Text
  pub provider_id : Text
  pub runtime_class : Text
  pub region : Option Text
  pub config_profile : Option Text
  pub configured : Bool
  pub capabilities : SupportMap
  pub health : ProviderHealth
  pub safety : CandidateSafety

-- `RoutingCandidateSchema`
unfoldable pub parse_candidate : RoutingCandidate → Option RoutingCandidate
unfolding is_candidate_id is_slug parse_location is_health
parse_candidate c = do
  accept (is_candidate_id c.candidate_id && is_slug c.provider_id && is_slug c.runtime_class)
  region ← parse_location c.region
  profile ← parse_location c.config_profile
  accept (is_health c.health && is_safety c.safety)
  some (record c { region = region; config_profile = profile })

-- The function that `buildRoutingCandidates` maps over the sources.
unfoldable pub candidate_of : InputSource → Option RoutingCandidate
unfolding create_candidate_id parse_candidate
candidate_of s = do
  id ← create_candidate_id s.descriptor
  parse_candidate (record {
    candidate_id = id;
    provider_id = s.descriptor.provider_id;
    runtime_class = s.descriptor.runtime_class;
    region = s.descriptor.region;
    config_profile = s.descriptor.config_profile;
    configured = s.descriptor.configured && s.health.configured;
    capabilities = s.descriptor.capabilities;
    health = s.health;
    safety = s.safety;
  })

-- A step over a list that fails if one of its calls does.
unfoldable pub map_option {ℓ κ} :
    {A : Type ℓ} {B : Type κ} → (A → Option B) → List A → Option (List B)
map_option f [] = some []
map_option f (x ∷ xs) = do y ← f x; ys ← map_option f xs; some (y ∷ ys)

-- `left < right ? -1 : left > right ? 1 : 0`, on identifiers.
unfoldable pub compare_text : Text → Text → Ordering
compare_text l r =
    if text_lt l r then Ordering.lt else if text_lt r l then Ordering.gt else Ordering.eq

abbrev pub compare_candidates : RoutingCandidate → RoutingCandidate → Ordering
compare_candidates l r = compare_text l.candidate_id r.candidate_id

-- `buildRoutingCandidates`; `none` where it throws.
unfoldable pub build_routing_candidates : List InputSource → Option (List RoutingCandidate)
unfolding map_option parse_source candidate_of all_distinct sort_by compare_text
build_routing_candidates sources = do
  accept (leb 1 (length sources) && leb (length sources) 64)
  validated ← map_option parse_source sources
  candidates ← map_option candidate_of validated
  accept (all_distinct (map (λ c. c.candidate_id) candidates))
  some (sort_by compare_candidates candidates)
