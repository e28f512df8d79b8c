-- ===== src/Security/Targets/Tests.antt =====
-- security/src/target-policy.ts: targets that are let through and targets that are refused.
use surfgate.Common.{
  ◌≡◌, ◌≤◌, ◌+◌, refl, sym, subst, false, List, [], ◌∷◌, ◌++◌, Option, none, some, ◌==◌, ==-iff,
  if◌then◌else◌, inl, inr, Bool-cases, arith, length, all, nat_eq, includes, any, ℕ_discrete,
}
use surfgate.Common.Sorting.{sort_by, insert_by}
use surfgate.Contracts.Text.{Text, text_eq, Text-discrete, codes, strip_prefix, text_lt}
use surfgate.Router.Candidate.{compare_text}
use surfgate.Security.Targets.Addresses.{
  Family, ipv4, Url, Platform, blocked, drop_dots, forbidden_address, to_lower_case,
  normalized_hostname, ends_with, unbracketed,
}
use surfgate.Security.Targets.Policy.{
  Options, natural, Limits, Resolver, target_limits, normalized_addresses, without_repeats, joined,
  bounded_resolve, resolve_passes, validate, validate_all, validate_redirect_chain,
}
use surfgate.Security.Targets.Joined.{IsPlain}
use surfgate.Security.Targets.Permitted.{PlatformLaws, Permitted, validate-Permitted}
use surfgate.Security.Targets.Chain.{Bounded, Followed, chain-Followed}

abbrev public_address : Text
public_address = codes "93.184.216.34"

abbrev private_address : Text
private_address = codes "10.0.0.1"

-- Two addresses, of which the block list has the second.
abbrev family_of : Text → Option Family
family_of t =
    if t == public_address then some ipv4 else if t == private_address then some ipv4 else none

abbrev url_with : Text → Url
url_with host = record {
  protocol = codes "https:";
  username = [];
  password = [];
  hostname = host;
  rest = codes "/";
}

abbrev platform : Platform
platform = record {
  parse_url = λ t. elim (strip_prefix (codes "https://") t) [
    | none ↦ none
    | some host ↦ some (url_with host)
  ];
  href = λ u. codes "https://" ++ u.hostname ++ u.rest;
  set_hostname = λ u host. record {
    protocol = u.protocol;
    username = u.username;
    password = u.password;
    hostname = host;
    rest = u.rest;
  };
  is_ip = family_of;
  in_subnet = λ s f t. if s.network == codes "10.0.0.0" then t == private_address else false;
}

platform_laws : PlatformLaws platform
platform_laws = record { address_plain = plain }
  where
    is_plain_public : IsPlain public_address
    is_plain_public = record { some_units = refl; no_nul = unfold all in refl }

    is_plain_private : IsPlain private_address
    is_plain_private = record { some_units = refl; no_nul = unfold all in refl }

    plain : (a : Text) (f : Family) → family_of a ≡ some f → IsPlain a
    plain a f h = elim (Bool-cases (a == public_address)) [
      | inl e ↦ subst IsPlain (sym ((==-iff a public_address).0 e)) is_plain_public
      | inr e ↦ elim (Bool-cases (a == private_address)) [
        | inl k ↦ subst IsPlain (sym ((==-iff a private_address).0 k)) is_plain_private
        | inr k ↦ absurd (ground (arith, e, k, h))
      ]
    ]

abbrev options : Options
options = record {
  timeout_ms = none;
  max_addresses = none;
  max_redirects = some (natural 3);
  resolution_passes = none;
}

abbrev limits : Limits
limits = record { timeout_ms = 2000; max_addresses = 32; max_redirects = 3; resolution_passes = 2 }

-- Every name has the public address.
abbrev steady : Resolver
steady call host = record { answer = some (public_address ∷ public_address ∷ []); after_ms = 15 }

-- A name that has the private address from its second resolution on.
abbrev rebinding : Resolver
rebinding call host = record {
  answer = some ((if nat_eq call 0 then public_address else private_address) ∷ []);
  after_ms = 15;
}

limits_of_options : target_limits options ≡ some limits
unfolding target_limits
limits_of_options = refl

validated :
    validate platform limits steady 0 (codes "https://Example.org..")
    ≡ some (2, codes "https://example.org/")
unfolding validate resolve_passes bounded_resolve normalized_addresses without_repeats sort_by
    insert_by includes any joined forbidden_address blocked normalized_hostname unbracketed
    drop_dots to_lower_case ends_with strip_prefix Text-discrete ℕ_discrete compare_text text_lt
validated = refl

-- A name that turns to a private address between two passes is refused.
rebound : validate platform limits rebinding 0 (codes "https://example.org") ≡ none
unfolding validate resolve_passes bounded_resolve normalized_addresses without_repeats sort_by
    insert_by includes any joined forbidden_address blocked normalized_hostname unbracketed
    drop_dots to_lower_case ends_with strip_prefix Text-discrete ℕ_discrete compare_text text_lt
rebound = refl

local_refused : validate platform limits steady 0 (codes "https://db.internal.") ≡ none
unfolding validate resolve_passes bounded_resolve normalized_addresses without_repeats sort_by
    insert_by includes any joined forbidden_address blocked normalized_hostname unbracketed
    drop_dots to_lower_case ends_with strip_prefix Text-discrete ℕ_discrete compare_text text_lt
local_refused = refl

validate-Permitted_example :
    Permitted platform limits steady 0
      (codes "https://Example.org..")
      2
      (codes "https://example.org/")
validate-Permitted_example =
    validate-Permitted platform limits steady platform_laws 0 (codes "https://Example.org..") 2
      (codes "https://example.org/") validated

abbrev hops : List Text
hops = codes "https://example.org" ∷ codes "https://93.184.216.34" ∷ []

abbrev hop_targets : List Text
hop_targets = codes "https://example.org/" ∷ codes "https://93.184.216.34/" ∷ []

hops_validated : validate_redirect_chain platform limits steady 0 hops ≡ some (2, hop_targets)
unfolding validate_redirect_chain validate_all validate resolve_passes bounded_resolve
    normalized_addresses without_repeats sort_by insert_by includes any joined forbidden_address
    blocked normalized_hostname unbracketed drop_dots to_lower_case ends_with strip_prefix
    Text-discrete ℕ_discrete compare_text text_lt
hops_validated = refl

chain-Followed_example :
    Bounded limits
    × (1 ≤ length hops)
    × (length hops ≤ limits.max_redirects + 1)
    × (length hops ≤ 21)
    × Followed platform limits steady [] 0 hops 2 hop_targets
chain-Followed_example =
    chain-Followed platform limits steady platform_laws options 0 hops 2 hop_targets
      limits_of_options hops_validated
