-- ===== src/Router/Identity.antt =====
-- router/src/candidate.ts and routing-decision.ts: how a candidate is named. An identifier is the
-- provider, the runtime class, the region and the configuration profile, joined by `::`; the last
-- two are percent-encoded.
use surfgate.Common.{
  ℕ, ◌+◌, ◌-◌, ◌*◌, ◌/◌, ◌%◌, Bool, true, false, ◌&&◌, ◌||◌, Option, none, some, [], ◌∷◌, ◌++◌,
  if◌then◌else◌, leb, ltb, nat_eq, all, ◌==◌, ℕ_discrete,
}
use surfgate.Common.Maybe.{◌>>=◌, ◌>>◌, accept}
use surfgate.Contracts.Text.{Text, text_eq, Text-discrete, is_alnum, is_slug, length_within}
use surfgate.Provider.Descriptor.{ProviderDescriptor, parse_descriptor, parse_location}

-- What `encodeURIComponent` and the replacement after it leave as it is.
abbrev is_kept : ℕ → Bool
is_kept c = is_alnum c || nat_eq c b'-' || nat_eq c b'_' || nat_eq c b'.'

-- A digit of `toString(16).toUpperCase()`.
abbrev pub hex_digit : ℕ → ℕ
hex_digit n = if ltb n 10 then b'0' + n else b'A' + (n - 10)

-- `%` and a byte in two digits.
unfoldable pub percent : ℕ → Text
percent b = b'%' ∷ hex_digit (b / 16) ∷ hex_digit (b % 16) ∷ []

-- The bytes of a code point in UTF-8, percent-encoded.
unfoldable pub percent_utf8 : ℕ → Text
percent_utf8 c =
    if ltb c 0x80
    then percent c
    else if ltb c 0x800
    then percent (0xc0 + c / 64) ++ percent (0x80 + c % 64)
    else if ltb c 0x10000
    then percent (0xe0 + c / 4096) ++ percent (0x80 + c / 64 % 64) ++ percent (0x80 + c % 64)
    else percent (0xf0 + c / 262144)
      ++ percent (0x80 + c / 4096 % 64)
      ++ percent (0x80 + c / 64 % 64)
      ++ percent (0x80 + c % 64)

-- `encodeURIComponentCharacter`
unfoldable pub encode_character : ℕ → Text
encode_character c = if is_kept c then c ∷ [] else percent_utf8 c

abbrev pub is_high_surrogate : ℕ → Bool
is_high_surrogate c = leb 0xd800 c && leb c 0xdbff

abbrev pub is_low_surrogate : ℕ → Bool
is_low_surrogate c = leb 0xdc00 c && leb c 0xdfff

-- The code point of a surrogate pair.
abbrev pub join_surrogates : ℕ → ℕ → ℕ
join_surrogates c d = 0x10000 + (c - 0xd800) * 1024 + (d - 0xdc00)

-- `%u` and a code unit in four digits.
unfoldable pub encode_unit : ℕ → Text
encode_unit c =
    b'%'
    ∷ b'u'
    ∷ hex_digit (c / 4096)
    ∷ hex_digit (c / 256 % 16)
    ∷ hex_digit (c / 16 % 16)
    ∷ hex_digit (c % 16)
    ∷ []

-- A code unit that begins no pair.
unfoldable pub encode_single : ℕ → Text
encode_single c =
    if is_high_surrogate c || is_low_surrogate c then encode_unit c else encode_character c

-- The loop of `encodePresentComponent`.
unfoldable pub encode_units : Text → Text
unfolding encode_single encode_character encode_unit percent_utf8 percent
encode_units [] = []
encode_units (c ∷ []) = encode_single c
encode_units (c ∷ d ∷ t) = elim (is_high_surrogate c && is_low_surrogate d) [
  | true ↦ encode_character (join_surrogates c d) ++ encode_units t
  | false ↦ encode_single c ++ encode_units (d ∷ t)
]

-- `encodeOptionalComponent`
unfoldable pub encode_optional_component : Option Text → Text
unfolding encode_units
encode_optional_component none = b'-' ∷ []
encode_optional_component (some t) = b'=' ∷ encode_units t

-- `RoutingCandidateIDSchema`
unfoldable pub is_candidate_id : Text → Bool
unfolding all
is_candidate_id t =
    length_within 1 2048 t
    && all
        (λ c.
          is_alnum c
          || nat_eq c b'%'
          || nat_eq c b'.'
          || nat_eq c b'_'
          || nat_eq c b':'
          || nat_eq c b'='
          || nat_eq c b'-')
        t

-- The fields from which an identifier is made.
pub record Components : Type 0 where
  pub provider_id : Text
  pub runtime_class : Text
  pub region : Option Text
  pub config_profile : Option Text

abbrev pub separator : Text
separator = b':' ∷ b':' ∷ []

-- `[...].join('::')`
unfoldable pub join_components : Components → Text
unfolding encode_optional_component
join_components c =
    c.provider_id
    ++ (separator
        ++ (c.runtime_class
            ++ (separator
                ++ (encode_optional_component c.region
                    ++ (separator ++ encode_optional_component c.config_profile)))))

-- `createRoutingCandidateIDFromIdentity`
unfoldable pub create_candidate_id_from_identity : Components → Option Text
unfolding is_slug parse_location join_components is_candidate_id
create_candidate_id_from_identity c = do
  accept (is_slug c.provider_id && is_slug c.runtime_class)
  region ← parse_location c.region
  profile ← parse_location c.config_profile
  let id = join_components (record c { region = region; config_profile = profile })
  accept (is_candidate_id id)
  some id

-- `createRoutingCandidateID`
unfoldable pub create_candidate_id : ProviderDescriptor → Option Text
unfolding parse_descriptor create_candidate_id_from_identity
create_candidate_id raw = do
  d ← parse_descriptor raw
  create_candidate_id_from_identity (record {
    provider_id = d.provider_id;
    runtime_class = d.runtime_class;
    region = d.region;
    config_profile = d.config_profile;
  })

pub record CandidateIdentity : Type 0 where
  pub candidate_id : Text
  pub provider_id : Text
  pub runtime_class : Text
  pub region : Option Text
  pub config_profile : Option Text

abbrev pub components_of : CandidateIdentity → Components
components_of i = record {
  provider_id = i.provider_id;
  runtime_class = i.runtime_class;
  region = i.region;
  config_profile = i.config_profile;
}

-- `RoutingCandidateIdentitySchema`
unfoldable pub parse_identity : CandidateIdentity → Option CandidateIdentity
unfolding create_candidate_id_from_identity Text-discrete ℕ_discrete
parse_identity raw = do
  accept (is_candidate_id raw.candidate_id && is_slug raw.provider_id && is_slug raw.runtime_class)
  region ← parse_location raw.region
  profile ← parse_location raw.config_profile
  let i = record raw { region = region; config_profile = profile }
  id ← create_candidate_id_from_identity (components_of i)
  accept (id == i.candidate_id)
  some i
