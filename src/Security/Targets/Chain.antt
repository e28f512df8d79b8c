-- ===== src/Security/Targets/Chain.antt =====
-- security/src/target-policy.ts: what a chain of redirects that is let through has gone through.
use surfgate.Common.{
  ℕ, ◌+◌, ◌≡◌, subst, false, ◌&&◌, not, not-true, List, [], ◌∷◌, some, leb, length, includes, ◌≤◌,
  leb→le, or_default, arith, Bool-cases, inl, inr, &&-left, &&-right,
}
use surfgate.Common.Maybe.{bind-some, accept-some, some_inj}
use surfgate.Task.Record.{max_safe_integer}
use surfgate.Contracts.Text.{Text, text_eq}
use surfgate.Security.Targets.Addresses.{Platform}
use surfgate.Security.Targets.Policy.{
  Options, Limits, Resolver, Setting, other_number, natural, setting_within, target_limits,
  validate, validate_all, validate_redirect_chain,
}
use surfgate.Security.Targets.Permitted.{PlatformLaws, Permitted, validate-Permitted}

-- The values are permitted one after the other, each with a target that is not among those before.
pub data Followed (p : Platform) (l : Limits) (resolve : Resolver)
    : List Text → ℕ → List Text → ℕ → List Text → Type 0 where
  arrived : {seen : List Text} {call : ℕ} → Followed p l resolve seen call [] call []
  redirected :
      {seen : List Text} {call next after : ℕ} {value target : Text} {values targets : List Text}
      → Permitted p l resolve call value next target
      → includes seen target ≡ false
      → Followed p l resolve (target ∷ seen) next values after targets
      → Followed p l resolve seen call (value ∷ values) after (target ∷ targets)

-- The bounds of a policy's settings.
pub record Bounded (l : Limits) : Type 0 where
  pub some_time : 1 ≤ l.timeout_ms
  pub addresses : (1 ≤ l.max_addresses) × (l.max_addresses ≤ 256)
  pub redirects : l.max_redirects ≤ 20
  pub passes : (1 ≤ l.resolution_passes) × (l.resolution_passes ≤ 3)

setting_within_bounds :
    (lo hi : ℕ) (s : Setting) (n : ℕ) → setting_within lo hi s ≡ some n → (lo ≤ n) × (n ≤ hi)
setting_within_bounds lo hi other_number n h = cc
setting_within_bounds lo hi (natural m) n h =
    elim (Bool-cases (leb lo m && leb m hi && leb m max_safe_integer)) [
      | inl e ↦
          let same : m ≡ n = ground (arith, e, h) in
          subst (λ k. (lo ≤ k) × (k ≤ hi)) same
            (leb→le lo m (ground (arith, e)), leb→le m hi (ground (arith, e)))
      | inr e ↦ absurd (ground (arith, e, h))
    ]

target_limits-Bounded : (o : Options) (l : Limits) → target_limits o ≡ some l → Bounded l
unfolding target_limits
target_limits-Bounded o l h =
    let (t, e1, h1) =
      bind-some (setting_within 1 max_safe_integer (or_default o.timeout_ms (natural 2000))) _ l
        h in
    let (a, e2, h2) =
      bind-some (setting_within 1 256 (or_default o.max_addresses (natural 32))) _ l h1 in
    let (r, e3, h3) =
      bind-some (setting_within 0 20 (or_default o.max_redirects (natural 5))) _ l h2 in
    let (n, e4, h4) =
      bind-some (setting_within 1 3 (or_default o.resolution_passes (natural 2))) _ l h3 in
    subst Bounded (some_inj h4) (record {
      some_time =
          (setting_within_bounds 1 max_safe_integer (or_default o.timeout_ms (natural 2000)) t
            e1).0;
      addresses = setting_within_bounds 1 256 (or_default o.max_addresses (natural 32)) a e2;
      redirects = (setting_within_bounds 0 20 (or_default o.max_redirects (natural 5)) r e3).1;
      passes = setting_within_bounds 1 3 (or_default o.resolution_passes (natural 2)) n e4;
    })

module _ (p : Platform) (l : Limits) (resolve : Resolver) (laws : PlatformLaws p) where
  validate_all-Followed :
      (seen : List Text) (call : ℕ) (values : List Text) (after : ℕ) (targets : List Text)
      → validate_all p l resolve seen call values ≡ some (after, targets)
      → Followed p l resolve seen call values after targets
  unfolding validate_all
  validate_all-Followed seen call [] after targets h =
      subst (λ x. Followed p l resolve seen call [] x.0 x.1) (some_inj h) arrived
  validate_all-Followed seen call (value ∷ values) after targets h =
      let (first, e, h1) = bind-some (validate p l resolve call value) _ (after, targets) h in
      let (new, h2) = accept-some (not (includes seen first.1)) _ (after, targets) h1 in
      let (later, f, h3) =
        bind-some (validate_all p l resolve (first.1 ∷ seen) first.0 values) _ (after, targets)
          h2 in
      subst (λ x. Followed p l resolve seen call (value ∷ values) x.0 x.1) (some_inj h3)
        (redirected (validate-Permitted p l resolve laws call value first.0 first.1 e)
          (not-true _ new)
          (validate_all-Followed (first.1 ∷ seen) first.0 values later.0 later.1 f))

  -- A policy that can be created bounds its passes and redirects, and a chain of redirects that it
  -- lets through is not empty, has at most one value more than maxRedirects and so at most 21, each
  -- value is permitted by itself, and no target comes twice.
  pub chain-Followed :
      (o : Options) (call : ℕ) (values : List Text) (after : ℕ) (targets : List Text)
      → target_limits o ≡ some l
      → validate_redirect_chain p l resolve call values ≡ some (after, targets)
      → Bounded l
        × (1 ≤ length values)
        × (length values ≤ l.max_redirects + 1)
        × (length values ≤ 21)
        × Followed p l resolve [] call values after targets
  unfolding validate_redirect_chain
  chain-Followed o call values after targets created h =
      let (size, h1) = accept-some _ _ (after, targets) h in
      let bounded : Bounded l = target_limits-Bounded o l created in
      let few : length values ≤ l.max_redirects + 1 =
        leb→le _ _ (&&-right (leb 1 (length values)) _ size) in
      (
        bounded,
        leb→le 1 (length values) (&&-left (leb 1 (length values)) _ size),
        few,
        omega (arith, few, bounded.redirects),
        validate_all-Followed [] call values after targets h1,
      )
