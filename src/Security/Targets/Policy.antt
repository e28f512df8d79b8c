-- ===== src/Security/Targets/Policy.antt =====
-- security/src/target-policy.ts: `createTargetPolicy` and its two operations.
use surfgate.Common.{
  ℕ, zero, suc, ◌+◌, Bool, true, false, ◌&&◌, ◌||◌, not, List, [], ◌∷◌, ◌++◌, map, Option, none,
  some, nat_eq, leb, ltb, any, if◌then◌else◌, or_default, length, includes, ◌==◌,
}
use surfgate.Common.Maybe.{◌>>=◌, ◌>>◌, accept}
use surfgate.Common.Sorting.{sort_by}
use surfgate.Contracts.Text.{Text, text_eq, codes}
use surfgate.Task.Record.{max_safe_integer}
use surfgate.Router.Candidate.{compare_text}
use surfgate.Security.Targets.Addresses.{
  Family, Url, Platform, forbidden_address, to_lower_case, normalized_hostname, ends_with,
}

-- A number of the options; negative ones and fractions are the others.
pub data Setting : Type 0 where
  natural : (n : ℕ) → Setting
  other_number : Setting

pub record Options : Type 0 where
  pub timeout_ms : Option Setting
  pub max_addresses : Option Setting
  pub max_redirects : Option Setting
  pub resolution_passes : Option Setting

pub record Limits : Type 0 where
  pub timeout_ms : ℕ
  pub max_addresses : ℕ
  pub max_redirects : ℕ
  pub resolution_passes : ℕ

-- A safe integer between two bounds.
abbrev pub setting_within : ℕ → ℕ → Setting → Option ℕ
setting_within lo hi other_number = none
setting_within lo hi (natural n) =
    if leb lo n && leb n hi && leb n max_safe_integer then some n else none

-- The checks of `createTargetPolicy`.
unfoldable pub target_limits : Options → Option Limits
target_limits o = do
  timeout_ms ← setting_within 1 max_safe_integer (or_default o.timeout_ms (natural 2000))
  max_addresses ← setting_within 1 256 (or_default o.max_addresses (natural 32))
  max_redirects ← setting_within 0 20 (or_default o.max_redirects (natural 5))
  resolution_passes ← setting_within 1 3 (or_default o.resolution_passes (natural 2))
  some (record {
    timeout_ms = timeout_ms;
    max_addresses = max_addresses;
    max_redirects = max_redirects;
    resolution_passes = resolution_passes;
  })

-- What a call of the resolver comes to, and after how many milliseconds; `none` where it rejects.
pub record Lookup : Type 0 where
  pub answer : Option (List Text)
  pub after_ms : ℕ

-- The resolver's calls are numbered, since each may answer something else.
abbrev pub Resolver : Type 0
Resolver = ℕ → Text → Lookup

-- The delay of `setTimeout`, which takes a number above 2^31 - 1 for 1.
abbrev pub timer_ms : ℕ → ℕ
timer_ms n = if leb n 2147483647 then n else 1

-- `Promise.race` with the timer.
abbrev pub in_time : Limits → Lookup → Option (List Text)
in_time l found = if ltb found.after_ms (timer_ms l.timeout_ms) then found.answer else none

-- The items of `new Set`, in the order in which they first appear.
unfoldable pub without_repeats : List Text → List Text → List Text
unfolding includes
without_repeats seen [] = []
without_repeats seen (x ∷ xs) = elim (includes seen x) [
  | true ↦ without_repeats seen xs
  | false ↦ x ∷ without_repeats (x ∷ seen) xs
]

unfoldable pub normalized_addresses : List Text → List Text
unfolding without_repeats sort_by to_lower_case compare_text
normalized_addresses addresses =
    sort_by compare_text (without_repeats [] (map to_lower_case addresses))

-- `join('\0')`
unfoldable pub joined : List Text → Text
joined [] = []
joined (x ∷ []) = x
joined (x ∷ y ∷ rest) = x ++ 0 ∷ joined (y ∷ rest)

abbrev pub agrees : Option (List Text) → List Text → Bool
agrees none addresses = true
agrees (some expected) addresses = joined addresses == joined expected

abbrev pub is_web : Url → Bool
is_web u =
    (u.protocol == codes "http:" || u.protocol == codes "https:")
    && nat_eq (length u.username) 0
    && nat_eq (length u.password) 0
    && leb 1 (length u.hostname)

abbrev pub is_local : Text → Bool
is_local hostname =
    hostname == codes "localhost"
    || ends_with (codes ".localhost") hostname
    || ends_with (codes ".local") hostname
    || ends_with (codes ".internal") hostname

module _ (p : Platform) (l : Limits) where
  unfoldable pub bounded_resolve : Lookup → Option (List Text)
  unfolding any
  bounded_resolve found = do
    addresses ← in_time l found
    accept (leb 1 (length addresses) && leb (length addresses) l.max_addresses)
    accept (not (any (forbidden_address p) (normalized_addresses addresses)))
    some (normalized_addresses addresses)

module _ (p : Platform) (l : Limits) (resolve : Resolver) where
  -- The loop over the passes that are left, with the number of the next call; the answer is the
  -- number after the last.
  unfoldable pub resolve_passes : Text → ℕ → ℕ → Option (List Text) → Option ℕ
  unfolding bounded_resolve joined
  resolve_passes hostname zero call expected = some call
  resolve_passes hostname (suc left) call expected = do
    addresses ← bounded_resolve p l (resolve call hostname)
    accept (agrees expected addresses)
    resolve_passes hostname left (suc call) (some addresses)

  -- Host names are resolved, addresses are looked up in the block list.
  abbrev pub checked_host : Url → Text → ℕ → Option Family → Option (ℕ × Text)
  checked_host target hostname call none = do
    after ← resolve_passes hostname l.resolution_passes call none
    some (after, p.href (p.set_hostname target hostname))
  checked_host target hostname call (some family) = do
    accept (not (forbidden_address p hostname))
    some (call, p.href target)

  abbrev pub checked_url : ℕ → Url → Text → Option (ℕ × Text)
  checked_url call target hostname = do
    accept (leb 1 (length hostname))
    accept (not (is_local hostname))
    checked_host target hostname call (p.is_ip hostname)

  -- `validate`
  unfoldable pub validate : ℕ → Text → Option (ℕ × Text)
  validate call value = do
    target ← p.parse_url value
    accept (is_web target)
    checked_url call target (normalized_hostname target.hostname)

  -- The loop of `validateRedirectChain` over the values that are left.
  unfoldable pub validate_all : List Text → ℕ → List Text → Option (ℕ × List Text)
  unfolding validate includes
  validate_all seen call [] = some (call, [])
  validate_all seen call (value ∷ values) = do
    first ← validate call value
    accept (not (includes seen first.1))
    later ← validate_all (first.1 ∷ seen) first.0 values
    some (later.0, first.1 ∷ later.1)

  -- `validateRedirectChain`
  unfoldable pub validate_redirect_chain : ℕ → List Text → Option (ℕ × List Text)
  unfolding validate_all
  validate_redirect_chain call values = do
    accept (leb 1 (length values) && leb (length values) (l.max_redirects + 1))
    validate_all [] call values
