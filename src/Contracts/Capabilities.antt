-- ===== src/Contracts/Capabilities.antt =====
-- contracts/src/capabilities.ts: capabilities, their support and requirement states.
use surfgate.Common.{Bool, true, false, List, [], ◌∷◌, Option}

pub data CapabilityName : Type 0 where
  javascript dom xhr svg screenshot pdf webgl video persistent_auth real_browser_tls downloads
        uploads multi_tab long_session :
      CapabilityName

unfoldable pub CapabilityName-discrete : Discrete CapabilityName
CapabilityName-discrete = hlevel

abbrev pub capability_names : List CapabilityName
capability_names =
    javascript ∷ dom ∷ xhr ∷ svg ∷ screenshot ∷ pdf ∷ webgl ∷ video ∷ persistent_auth
    ∷ real_browser_tls ∷ downloads ∷ uploads ∷ multi_tab ∷ long_session ∷ []

pub data SupportState : Type 0 where
  supported unsupported experimental unknown : SupportState

pub data RequirementState : Type 0 where
  required preferred not_required : RequirementState

-- Every capability has an entry in a support map, and may have one in a requirements map.
abbrev pub SupportMap : Type 0
SupportMap = CapabilityName → SupportState

abbrev pub Requirements : Type 0
Requirements = CapabilityName → Option RequirementState

pub data RuntimePreference : Type 0 where
  auto kitesurf chromium : RuntimePreference

pub record RuntimeSelection : Type 0 where
  pub preference : RuntimePreference
  pub allow_fallback : Bool
  pub allow_experimental : Bool

-- `support === 'supported' || (support === 'experimental' && allowExperimental)`
abbrev pub is_usable : SupportState → Bool → Bool
is_usable supported b = true
is_usable experimental b = b
is_usable unsupported b = false
is_usable unknown b = false

unfoldable pub satisfies_capability_requirement : SupportState → RequirementState → Bool → Bool
satisfies_capability_requirement s required allow = is_usable s allow
satisfies_capability_requirement s preferred allow = true
satisfies_capability_requirement s not_required allow = true
