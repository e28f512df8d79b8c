-- ===== src/Security/Targets/Permitted.antt =====
-- security/src/target-policy.ts: what a target that `validate` lets through has gone through.
use surfgate.Common.{
  ℕ, zero, suc, ◌+◌, ◌≡◌, refl, ap, sym, ◌∙◌, subst, true, false, not, not-true, List, [], ◌∷◌,
  Option, none, some, leb, ltb, any, length, ==-iff, arith, Bool-cases, Option-cases, inl, inr,
  &&-left, &&-right,
}
use surfgate.Common.Maybe.{bind-some, accept-some, some_inj}
use surfgate.Common.Rows.{Forall, any-Forall}
use surfgate.Contracts.Text.{Text, text_eq}
use surfgate.Security.Targets.Addresses.{
  Family, Url, Platform, forbidden_family, forbidden_address, to_lower_case, normalized_hostname,
}
use surfgate.Security.Targets.Policy.{
  Limits, Lookup, Resolver, timer_ms, in_time, normalized_addresses, joined, agrees, is_web,
  is_local, bounded_resolve, resolve_passes, checked_host, validate,
}
use surfgate.Security.Targets.Joined.{IsPlain, joined-inj, any-normalized_addresses}

-- What Node documents of `isIP`: only the texts of addresses have a family.
pub record PlatformLaws (p : Platform) : Type 0 where
  pub address_plain : (a : Text) (f : Family) → p.is_ip a ≡ some f → IsPlain a

-- An answer of the resolver that the policy takes: it comes in time, it has at least one address
-- and not too many, none of them, in lower case, is forbidden, and they are the set `addresses`.
pub record Resolved (p : Platform) (l : Limits) (found : Lookup) (addresses : List Text)
    : Type 0 where
  pub in_time : ltb found.after_ms (timer_ms l.timeout_ms) ≡ true
  pub raw : List Text
  pub answered : found.answer ≡ some raw
  pub some_addresses : leb 1 (length raw) ≡ true
  pub few_addresses : leb (length raw) l.max_addresses ≡ true
  pub allowed : Forall (λ a. forbidden_address p (to_lower_case a) ≡ false) raw
  pub same_addresses : normalized_addresses raw ≡ addresses

-- So are the answers of a number of calls in a row, all with the same set.
abbrev pub AllResolved : Platform → Limits → Resolver → Text → List Text → ℕ → ℕ → Type 0
AllResolved p l resolve hostname addresses zero call = Unit {0}
AllResolved p l resolve hostname addresses (suc left) call =
    Resolved p l (resolve call hostname) addresses
    × AllResolved p l resolve hostname addresses left (suc call)

module _ (p : Platform) (l : Limits) (laws : PlatformLaws p) where
  allowed-IsPlain : (a : Text) → forbidden_address p a ≡ false → IsPlain a
  unfolding forbidden_address
  allowed-IsPlain a h = elim (Option-cases (p.is_ip a)) [
    | inl e ↦ absurd (true_false (sym (ap (forbidden_family p a) e) ∙ h))
    | inr (f, e) ↦ laws.address_plain a f e
  ]
    where
      true_false : true ≡ false → ⊥
      true_false e = cc

  none_forbidden_lem : (xs : List Text) → any (forbidden_address p) xs ≡ false → Forall IsPlain xs
  unfolding any
  none_forbidden_lem [] h = tt
  none_forbidden_lem (x ∷ xs) h =
      (allowed-IsPlain x (ground (arith, h)), none_forbidden_lem xs (ground (arith, h)))

  timely :
      (found : Lookup) (raw : List Text)
      → in_time l found ≡ some raw
      → (ltb found.after_ms (timer_ms l.timeout_ms) ≡ true) × (found.answer ≡ some raw)
  timely found raw h = elim (Bool-cases (ltb found.after_ms (timer_ms l.timeout_ms))) [
    | inl e ↦ (e, ground (arith, e, h))
    | inr e ↦ absurd (ground (arith, e, h))
  ]

  -- An answer that is taken, and its set has only plain texts.
  bounded_resolve-Resolved :
      (found : Lookup) (addresses : List Text)
      → bounded_resolve p l found ≡ some addresses
      → Resolved p l found addresses × Forall IsPlain addresses
  unfolding bounded_resolve any
  bounded_resolve-Resolved found addresses h =
      let (raw, e, h1) = bind-some (in_time l found) _ addresses h in
      let (few, h2) = accept-some _ _ addresses h1 in
      let (free, h3) = accept-some _ _ addresses h2 in
      let none_forbidden : any (forbidden_address p) (normalized_addresses raw) ≡ false =
        not-true _ free in
      let same : normalized_addresses raw ≡ addresses = some_inj h3 in
      let (soon, answer) = timely found raw e in
      (
        record {
          in_time = soon;
          raw = raw;
          answered = answer;
          some_addresses = &&-left (leb 1 (length raw)) _ few;
          few_addresses = &&-right (leb 1 (length raw)) _ few;
          allowed =
              any-Forall (λ a. forbidden_address p (to_lower_case a)) raw
                (sym (any-normalized_addresses (forbidden_address p) raw) ∙ none_forbidden);
          same_addresses = same;
        },
        subst (Forall IsPlain) same (none_forbidden_lem (normalized_addresses raw) none_forbidden),
      )

-- The host of a permitted URL: an address that is not blocked, or a name whose every resolution is
-- taken, with one set of addresses. The target is what is given out, and `after` the number of the
-- next call of the resolver.
pub data HostPermitted (p : Platform) (l : Limits) (resolve : Resolver) (u : Url) (hostname : Text)
    (call after : ℕ) (target : Text) : Type 0 where
  address :
      (family : Family)
      → p.is_ip hostname ≡ some family
      → forbidden_address p hostname ≡ false
      → after ≡ call
      → target ≡ p.href u
      → HostPermitted p l resolve u hostname call after target
  resolved :
      p.is_ip hostname ≡ none
      → (addresses : List Text)
      → AllResolved p l resolve hostname addresses l.resolution_passes call
      → after ≡ call + l.resolution_passes
      → target ≡ p.href (p.set_hostname u hostname)
      → HostPermitted p l resolve u hostname call after target

pub record Permitted (p : Platform) (l : Limits) (resolve : Resolver) (call : ℕ) (value : Text)
    (after : ℕ) (target : Text) : Type 0 where
  pub url : Url
  pub parsed : p.parse_url value ≡ some url
  pub web : is_web url ≡ true
  pub named : leb 1 (length (normalized_hostname url.hostname)) ≡ true
  pub remote : is_local (normalized_hostname url.hostname) ≡ false
  pub host : HostPermitted p l resolve url (normalized_hostname url.hostname) call after target

module _ (p : Platform) (l : Limits) (resolve : Resolver) (laws : PlatformLaws p) where
  -- Passes that follow an answer with the set `expected` have the same set.
  passes-AllResolved :
      (hostname : Text) (expected : List Text) (left call after : ℕ)
      → Forall IsPlain expected
      → resolve_passes p l resolve hostname left call (some expected) ≡ some after
      → (after ≡ call + left) × AllResolved p l resolve hostname expected left call
  unfolding resolve_passes
  passes-AllResolved hostname expected zero call after plain h = (ground (arith, h), tt)
  passes-AllResolved hostname expected (suc left) call after plain h =
      let (addresses, e, h1) = bind-some (bounded_resolve p l (resolve call hostname)) _ after h in
      let (agree, h2) = accept-some (agrees (some expected) addresses) _ after h1 in
      let (taken, addresses_plain) =
        bounded_resolve-Resolved p l laws (resolve call hostname) addresses e in
      let same : addresses ≡ expected =
        joined-inj addresses expected addresses_plain plain
          ((==-iff (joined addresses) (joined expected)).0 agree) in
      let (count, later) =
        passes-AllResolved hostname addresses left (suc call) after addresses_plain h2 in
      (
        omega (arith, count),
        (
          subst (λ a. Resolved p l (resolve call hostname) a) same taken,
          subst (λ a. AllResolved p l resolve hostname a left (suc call)) same later,
        ),
      )

  first-AllResolved :
      (hostname : Text) (left call after : ℕ)
      → resolve_passes p l resolve hostname left call none ≡ some after
      → (after ≡ call + left)
        × ((addresses : List Text) × AllResolved p l resolve hostname addresses left call)
  unfolding resolve_passes
  first-AllResolved hostname zero call after h = (ground (arith, h), ([], tt))
  first-AllResolved hostname (suc left) call after h =
      let (addresses, e, h1) = bind-some (bounded_resolve p l (resolve call hostname)) _ after h in
      let (taken, plain) = bounded_resolve-Resolved p l laws (resolve call hostname) addresses e in
      let (count, later) = passes-AllResolved hostname addresses left (suc call) after plain h1 in
      (omega (arith, count), (addresses, (taken, later)))

  same_pair : (x y : ℕ × Text) → some x ≡ some y → (x.0 ≡ y.0) × (x.1 ≡ y.1)
  same_pair x y h = (ground (arith, h), ground (arith, h))

  checked_host-HostPermitted :
      (u : Url) (hostname : Text) (call after : ℕ) (target : Text) (family : Option Family)
      → p.is_ip hostname ≡ family
      → checked_host p l resolve u hostname call family ≡ some (after, target)
      → HostPermitted p l resolve u hostname call after target
  checked_host-HostPermitted u hostname call after target none e h =
      let (next, passed, h1) =
        bind-some (resolve_passes p l resolve hostname l.resolution_passes call none) _
          (after, target) h in
      let (count, (addresses, all_taken)) =
        first-AllResolved hostname l.resolution_passes call next passed in
      let (same_call, same_target) = same_pair _ (after, target) h1 in
      resolved e addresses all_taken (sym same_call ∙ count) (sym same_target)
  checked_host-HostPermitted u hostname call after target (some family) e h =
      let (free, h1) = accept-some (not (forbidden_address p hostname)) _ (after, target) h in
      let (same_call, same_target) = same_pair (call, p.href u) (after, target) h1 in
      address family e (not-true _ free) (sym same_call) (sym same_target)

  -- A target that validate lets through comes from a URL of http or https without credentials, its
  -- host is not local, and it is an address that is not blocked, or a name that every pass has
  -- resolved in time to the same set of addresses, none of them blocked and not too many.
  pub validate-Permitted :
      (call : ℕ) (value : Text) (after : ℕ) (target : Text)
      → validate p l resolve call value ≡ some (after, target)
      → Permitted p l resolve call value after target
  unfolding validate
  validate-Permitted call value after target h =
      let (u, e, h1) = bind-some (p.parse_url value) _ (after, target) h in
      let (web, h2) = accept-some (is_web u) _ (after, target) h1 in
      let hostname : Text = normalized_hostname u.hostname in
      let (named, h3) = accept-some (leb 1 (length hostname)) _ (after, target) h2 in
      let (remote, h4) = accept-some (not (is_local hostname)) _ (after, target) h3 in
      record {
        url = u;
        parsed = e;
        web = web;
        named = named;
        remote = not-true _ remote;
        host = checked_host-HostPermitted u hostname call after target (p.is_ip hostname) refl h4;
      }
