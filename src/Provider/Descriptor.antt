-- ===== src/Provider/Descriptor.antt =====
-- provider-core/src/provider-descriptor.ts: what a provider declares of itself.
use surfgate.Common.{ℕ, Bool, ◌&&◌, Option, none, some, if◌then◌else◌}
use surfgate.Common.Maybe.{◌>>=◌, ◌>>◌, accept}
use surfgate.Contracts.Text.{Text, trim, length_within, is_slug}
use surfgate.Contracts.Capabilities.{SupportMap}

pub record ProviderImplementation : Type 0 where
  pub name : Text
  pub version : Text

pub record ProviderDescriptor : Type 0 where
  pub provider_id : Text
  pub runtime_class : Text
  pub display_name : Text
  pub capabilities : SupportMap
  pub implementation : ProviderImplementation
  pub region : Option Text
  pub config_profile : Option Text
  pub configured : Bool

-- `z.string().trim().min(1).max(n)`
unfoldable pub parse_label : ℕ → Text → Option Text
unfolding trim
parse_label n t = if length_within 1 n (trim t) then some (trim t) else none

-- The same, of an optional field; `ProviderLocationSchema` has at most 64 characters.
unfoldable pub parse_location : Option Text → Option (Option Text)
unfolding parse_label
parse_location none = some none
parse_location (some t) = elim (parse_label 64 t) [ none ↦ none | some u ↦ some (some u) ]

-- `ProviderDescriptorSchema`
unfoldable pub parse_descriptor : ProviderDescriptor → Option ProviderDescriptor
unfolding is_slug parse_label parse_location
parse_descriptor d = do
  accept (is_slug d.provider_id && is_slug d.runtime_class)
  display ← parse_label 128 d.display_name
  name ← parse_label 128 d.implementation.name
  version ← parse_label 64 d.implementation.version
  region ← parse_location d.region
  profile ← parse_location d.config_profile
  some (record d {
    display_name = display;
    implementation = record { name = name; version = version };
    region = region;
    config_profile = profile;
  })
