-- ===== src/Security/Targets/Joined.antt =====
-- security/src/target-policy.ts: what the comparison of two joined answers says of them.
use surfgate.Common.{
  ℕ, ◌≡◌, ◌∙◌, sym, refl, ap, Bool, true, false, ◌&&◌, ◌||◌, not, List, [], ◌∷◌, ◌++◌, map, nat_eq,
  leb, any, all, if◌then◌else◌, length, length-append, includes, ◌==◌, ==-iff, arith, Bool-cases,
  inl, inr, &&-right,
}
use surfgate.Common.Rows.{Forall}
use surfgate.Common.Sorting.{insert_by, sort_by}
use Prim.Native.Nat.{Ordering}
use surfgate.Contracts.Text.{Text, text_eq}
use surfgate.Router.Candidate.{compare_text}
use surfgate.Security.Targets.Addresses.{to_lower_case}
use surfgate.Security.Targets.Policy.{joined, without_repeats, normalized_addresses}

-- A text that is not empty and has no NUL.
pub record IsPlain (t : Text) : Type 0 where
  pub some_units : leb 1 (length t) ≡ true
  pub no_nul : all (λ c. not (nat_eq c 0)) t ≡ true

abbrev prepend : ℕ → List Text → List Text
prepend c [] = (c ∷ []) ∷ []
prepend c (x ∷ xs) = (c ∷ x) ∷ xs

-- What stands between the NULs.
unfoldable split_nul : Text → List Text
split_nul [] = [] ∷ []
split_nul (c ∷ t) = let rest = split_nul t in if nat_eq c 0 then [] ∷ rest else prepend c rest

no_nul_head : (c : ℕ) (r : Bool) → (not (nat_eq c 0) && r) ≡ true → nat_eq c 0 ≡ false
no_nul_head c r h = ground arith

split_nul-next :
    (x r : Text) → all (λ c. not (nat_eq c 0)) x ≡ true → split_nul (x ++ 0 ∷ r) ≡ x ∷ split_nul r
unfolding split_nul all
split_nul-next [] r h = refl
split_nul-next (c ∷ x) r h =
    rw (no_nul_head c _ h, split_nul-next x r (&&-right (not (nat_eq c 0)) _ h)) refl

split_nul-last : (x : Text) → all (λ c. not (nat_eq c 0)) x ≡ true → split_nul x ≡ x ∷ []
unfolding split_nul all
split_nul-last [] h = refl
split_nul-last (c ∷ x) h =
    rw (no_nul_head c _ h, split_nul-last x (&&-right (not (nat_eq c 0)) _ h)) refl

split_nul-joined :
    (x : Text) (xs : List Text) → Forall IsPlain (x ∷ xs) → split_nul (joined (x ∷ xs)) ≡ x ∷ xs
unfolding joined
split_nul-joined x [] h = split_nul-last x h.0.no_nul
split_nul-joined x (y ∷ ys) h =
    split_nul-next x (joined (y ∷ ys)) h.0.no_nul ∙ ap (λ l. x ∷ l) (split_nul-joined y ys h.1)

joined-some : (x : Text) (xs : List Text) → IsPlain x → leb 1 (length (joined (x ∷ xs))) ≡ true
unfolding joined
joined-some x [] h = h.some_units
joined-some x (y ∷ ys) h = ground (arith, length-append x (0 ∷ joined (y ∷ ys)), h.some_units)

none_joined : (x : Text) (xs : List Text) → IsPlain x → [] ≡ joined (x ∷ xs) → ⊥
none_joined x xs h e = ground (arith, ap length e, joined-some x xs h)

-- Lists of plain texts that are equal when joined are equal.
pub joined-inj :
    (xs ys : List Text) → Forall IsPlain xs → Forall IsPlain ys → joined xs ≡ joined ys → xs ≡ ys
unfolding joined
joined-inj [] [] h k e = refl
joined-inj [] (y ∷ ys) h k e = absurd (none_joined y ys k.0 e)
joined-inj (x ∷ xs) [] h k e = absurd (none_joined x xs h.0 (sym e))
joined-inj (x ∷ xs) (y ∷ ys) h k e =
    sym (split_nul-joined x xs h) ∙ ap split_nul e ∙ split_nul-joined y ys k

module _ {ℓ} {A : Type ℓ} (q : A → Bool) (cmp : A → A → Ordering) where
  any-insert_by : (x : A) (ys : List A) → any q (insert_by cmp x ys) ≡ (q x || any q ys)
  unfolding any insert_by
  any-insert_by x [] = refl
  any-insert_by x (y ∷ ys) = ground (arith, any-insert_by x ys)

  any-sort_by : (xs : List A) → any q (sort_by cmp xs) ≡ any q xs
  unfolding any sort_by
  any-sort_by [] = refl
  any-sort_by (x ∷ xs) = any-insert_by x (sort_by cmp xs) ∙ ap (λ b. q x || b) (any-sort_by xs)

or_kept :
    (a b c d : Bool) → (a || c) ≡ (a || d) → (b ≡ true → a ≡ true) → (a || c) ≡ (a || (b || d))
or_kept a b c d h k = ground (arith, h, k)

or_moved : (a b c d : Bool) → ((a || b) || c) ≡ ((a || b) || d) → (b || (a || c)) ≡ (b || (a || d))
or_moved a b c d h = ground (arith, h)

module _ (q : Text → Bool) where
  any_included :
      (seen : List Text) (x : Text) → includes seen x ≡ true → q x ≡ true → any q seen ≡ true
  unfolding includes any
  any_included [] x h k = cc
  any_included (y ∷ ys) x h k = elim (Bool-cases (y == x)) [
    | inl e ↦ let here : q y ≡ true = ap q ((==-iff y x).0 e) ∙ k in ground (arith, here)
    | inr e ↦ ground (arith, any_included ys x (ground (arith, e)) k)
  ]

  any-without_repeats :
      (seen xs : List Text)
      → (any q seen || any q (without_repeats seen xs)) ≡ (any q seen || any q xs)
  unfolding any without_repeats
  any-without_repeats seen [] = refl
  any-without_repeats seen (x ∷ xs) = elim (Bool-cases (includes seen x)) [
    | inl e ↦
        rw (without_repeats, e)
          (or_kept (any q seen) (q x) _ _ (any-without_repeats seen xs) (any_included seen x e))
    | inr e ↦
        rw (without_repeats, e)
          (or_moved (q x) (any q seen) _ _ (any-without_repeats (x ∷ seen) xs))
  ]

  any-map : (xs : List Text) → any q (map to_lower_case xs) ≡ any (λ a. q (to_lower_case a)) xs
  unfolding any
  any-map [] = refl
  any-map (x ∷ xs) = ap (λ b. q (to_lower_case x) || b) (any-map xs)

  -- What holds of no normalized address holds of no address in lower case.
  pub any-normalized_addresses :
      (xs : List Text) → any q (normalized_addresses xs) ≡ any (λ a. q (to_lower_case a)) xs
  unfolding normalized_addresses any
  any-normalized_addresses xs =
      any-sort_by q compare_text (without_repeats [] (map to_lower_case xs))
      ∙ any-without_repeats [] (map to_lower_case xs)
      ∙ any-map xs
