-- ===== src/Common/Rows.antt =====
-- Tables as lists of rows: the statements that read and write them.
use Prim.Native.Nat.{◌+◌, ◌≤◌, Ordering}
use mathlib.Core.Path.{◌≡◌, refl, sym, subst, ap}
use mathlib.Core.Bool.{Bool, true, false}
use mathlib.Core.Option.{Option, none, some}
use mathlib.Core.List.{List, [], ◌∷◌, ◌++◌, map}
use native.Mathlib.Omega.{arith}
use surfgate.Common.Tests.{if◌then◌else◌, Bool-cases}
use surfgate.Common.Lists.{any, length}
use surfgate.Common.Sorting.{insert_by, sort_by}
use mathlib.Core.Logic.{inl, inr, ◌↔◌}

module _ {ℓ} {A : Type ℓ} where
  -- `rows[0]` of the rows that satisfy a condition.
  unfoldable pub first_row : (A → Bool) → List A → Option A
  first_row p [] = none
  first_row p (x ∷ xs) = let rest = first_row p xs in if p x then some x else rest

  -- All of them.
  unfoldable pub select : (A → Bool) → List A → List A
  select p [] = []
  select p (x ∷ xs) = let rest = select p xs in if p x then x ∷ rest else rest

  -- The rows after an update of them.
  unfoldable pub rewrite : (A → Bool) → (A → A) → List A → List A
  rewrite p f [] = []
  rewrite p f (x ∷ xs) = (if p x then f x else x) ∷ rewrite p f xs

  abbrev pub Forall {κ} : (A → Type κ) → List A → Type κ
  Forall P [] = Unit
  Forall P (x ∷ xs) = P x × Forall P xs

  abbrev pub Pairwise {κ} : (A → A → Type κ) → List A → Type κ
  Pairwise R [] = Unit
  Pairwise R (x ∷ xs) = Forall (R x) xs × Pairwise R xs

  pub any-Forall : (p : A → Bool) (xs : List A) → any p xs ≡ false → Forall (λ x. p x ≡ false) xs
  unfolding any
  any-Forall p [] h = tt
  any-Forall p (x ∷ xs) h = (ground arith, any-Forall p xs (ground arith))

  -- No row satisfies a condition that is stronger than one that none satisfies.
  pub any_stronger :
      (p q : A → Bool) (xs : List A)
      → ((x : A) → p x ≡ true → q x ≡ true)
      → any q xs ≡ false
      → any p xs ≡ false
  unfolding any
  any_stronger p q [] k h = refl
  any_stronger p q (x ∷ xs) k h = ground (arith, k x, any_stronger p q xs k)

  pub Forall-mono {κ ι} :
      {P : A → Type κ} {Q : A → Type ι} (xs : List A)
      → ((x : A) → P x → Q x)
      → Forall P xs
      → Forall Q xs
  Forall-mono [] k h = tt
  Forall-mono (x ∷ xs) k h = (k x h.0, Forall-mono xs k h.1)

  pub Forall-both {κ ι μ} :
      {P : A → Type κ} {Q : A → Type ι} {S : A → Type μ} (xs : List A)
      → ((x : A) → P x → Q x → S x)
      → Forall P xs
      → Forall Q xs
      → Forall S xs
  Forall-both [] k h l = tt
  Forall-both (x ∷ xs) k h l = (k x h.0 l.0, Forall-both xs k h.1 l.1)

  pub first_row-Forall {κ} :
      (P : A → Type κ) (p : A → Bool) (xs : List A) (r : A)
      → Forall P xs
      → first_row p xs ≡ some r
      → P r × (p r ≡ true)
  unfolding first_row
  first_row-Forall P p [] r h e = cc
  first_row-Forall P p (x ∷ xs) r h e = elim (Bool-cases (p x)) [
    | inl t ↦ let same : x ≡ r = ground arith in subst (λ y. P y × (p y ≡ true)) same (h.0, t)
    | inr t ↦ first_row-Forall P p xs r h.1 (ground arith)
  ]

  -- The rows that the condition leaves out stand apart from the first that satisfies it.
  pub first_row-apart {κ} :
      (R : A → A → Type κ) (turn : (x y : A) → R x y → R y x) (p : A → Bool) (xs : List A) (r : A)
      → Pairwise R xs
      → first_row p xs ≡ some r
      → Forall (λ u. p u ≡ false → R r u) xs
  unfolding first_row
  first_row-apart R turn p [] r h e = tt
  first_row-apart R turn p (x ∷ xs) r h e = elim (Bool-cases (p x)) [
    | inl t ↦
        let same : x ≡ r = ground arith in
        (λ f. cc, Forall-mono xs (λ u k f. subst (λ y. R y u) same k) h.0)
    | inr t ↦
        let later : first_row p xs ≡ some r = ground arith in
        (
          λ f. turn x r (first_row-Forall (R x) p xs r h.0 later).0,
          first_row-apart R turn p xs r h.1 later,
        )
  ]

  pub if_either {κ} :
      (P : A → Type κ) (b : Bool) (x y : A)
      → (b ≡ true → P x)
      → (b ≡ false → P y)
      → P (if b then x else y)
  if_either P true x y h k = h refl
  if_either P false x y h k = k refl

module _ {ℓ} {A : Type ℓ} (p : A → Bool) (f : A → A) where
  -- An update keeps what it keeps of the rows it changes.
  pub rewrite-Forall {κ} :
      (P : A → Type κ) (xs : List A)
      → ((x : A) → p x ≡ true → P x → P (f x))
      → Forall P xs
      → Forall P (rewrite p f xs)
  unfolding rewrite
  rewrite-Forall P [] k h = tt
  rewrite-Forall P (x ∷ xs) k h =
      (if_either P (p x) (f x) x (λ t. k x t h.0) (λ t. h.0), rewrite-Forall P xs k h.1)

  pub rewrite_all-Forall {κ} :
      (P : A → Type κ) (xs : List A)
      → Forall (λ x. p x ≡ true → P (f x)) xs
      → Forall P xs
      → Forall P (rewrite p f xs)
  unfolding rewrite
  rewrite_all-Forall P [] k h = tt
  rewrite_all-Forall P (x ∷ xs) k h =
      (if_either P (p x) (f x) x k.0 (λ t. h.0), rewrite_all-Forall P xs k.1 h.1)

  pub rewrite_split-Forall {κ} :
      (P : A → Type κ) (xs : List A)
      → Forall (λ x. p x ≡ true → P (f x)) xs
      → Forall (λ x. p x ≡ false → P x) xs
      → Forall P (rewrite p f xs)
  unfolding rewrite
  rewrite_split-Forall P [] k h = tt
  rewrite_split-Forall P (x ∷ xs) k h =
      (if_either P (p x) (f x) x k.0 h.0, rewrite_split-Forall P xs k.1 h.1)

  -- What holds of the rows that an update returns.
  pub returned-Forall {κ} :
      (P : A → Type κ) (xs : List A)
      → Forall P (map f (select p xs))
      → Forall (λ x. p x ≡ true → P (f x)) xs
  unfolding select
  returned-Forall P [] h = tt
  returned-Forall P (x ∷ xs) h = elim (Bool-cases (p x)) [
    | inl t ↦ let k = rw t at h in ((λ e. k.0), returned-Forall P xs k.1)
    | inr t ↦ let k = rw t at h in ((λ e. cc), returned-Forall P xs k)
  ]

  -- It keeps what it keeps of one side of a pair and of both.
  pub rewrite-Pairwise {κ} :
      (R : A → A → Type κ) (xs : List A)
      → ((x y : A) → p x ≡ true → R x y → R (f x) y)
      → ((x y : A) → p y ≡ true → R x y → R x (f y))
      → Pairwise R xs
      → Pairwise R (rewrite p f xs)
  unfolding rewrite
  rewrite-Pairwise R [] k l h = tt
  rewrite-Pairwise R (x ∷ xs) k l h = (
    if_either (λ z. Forall (R z) (rewrite p f xs)) (p x) (f x) x
        (λ t. Forall-mono _ (λ y. k x y t) both) (λ t. both),
    rewrite-Pairwise R xs k l h.1,
  )
    where
      both : Forall (R x) (rewrite p f xs)
      both = rewrite-Forall (R x) xs (λ y. l x y) h.0

  pub any-rewrite :
      (q : A → Bool) (xs : List A) → ((x : A) → q (f x) ≡ q x) → any q (rewrite p f xs) ≡ any q xs
  unfolding any rewrite
  any-rewrite q [] k = refl
  any-rewrite q (x ∷ xs) k =
      rw (if_either (λ z. q z ≡ q x) (p x) (f x) x (λ t. k x) (λ t. refl), any-rewrite q xs k) refl

  rewrite-none : (xs : List A) → Forall (λ x. p x ≡ false) xs → rewrite p f xs ≡ xs
  unfolding rewrite
  rewrite-none [] h = refl
  rewrite-none (x ∷ xs) h = rw (h.0, rewrite-none xs h.1) refl

  -- Where the condition names a key, only one row is changed.
  module _ {κ} (R : A → A → Type κ) (key : (x y : A) → R x y → p x ≡ true → p y ≡ false) where
    -- That row, between those that stay.
    pub rewrite_one-split :
        (xs : List A) (r : A)
        → Pairwise R xs
        → first_row p xs ≡ some r
        → (before after : List A) × (xs ≡ before ++ r ∷ after)
          × (rewrite p f xs ≡ before ++ f r ∷ after)
    unfolding rewrite first_row
    rewrite_one-split [] r apart e = cc
    rewrite_one-split (x ∷ xs) r apart e = elim (Bool-cases (p x)) [
      | inl t ↦
          let same : x ≡ r = ground arith in
          (
            [],
            xs,
            ap (λ y. y ∷ xs) same,
            rw (t, rewrite-none xs (Forall-mono xs (λ y k. key x y k t) apart.0))
                (ap (λ y. f y ∷ xs) same),
          )
      | inr t ↦
          let (before, after, was, now) = rewrite_one-split xs r apart.1 (ground arith) in
          (x ∷ before, after, ap (λ l. x ∷ l) was, rw t (ap (λ l. x ∷ l) now))
    ]

    pub rewrite_one-Forall {ι} :
        (Q : A → Type ι) (xs : List A) (r : A)
        → Pairwise R xs
        → first_row p xs ≡ some r
        → Q (f r)
        → Forall Q xs
        → Forall Q (rewrite p f xs)
    unfolding rewrite first_row
    rewrite_one-Forall Q [] r apart e q h = tt
    rewrite_one-Forall Q (x ∷ xs) r apart e q h = elim (Bool-cases (p x)) [
      | inl t ↦
          let same : x ≡ r = ground arith in
          rw (t, rewrite-none xs (Forall-mono xs (λ y k. key x y k t) apart.0))
            (subst (λ y. Q (f y)) (sym same) q, h.1)
      | inr t ↦ rw t (h.0, rewrite_one-Forall Q xs r apart.1 (ground arith) q h.1)
    ]

    pub rewrite_one-Pairwise :
        ((x y : A) → R x y → R y x)
        → (xs : List A) (r : A) → Pairwise R xs
        → first_row p xs ≡ some r
        → Forall (λ u. p u ≡ false → R (f r) u) xs
        → Pairwise R (rewrite p f xs)
    unfolding rewrite first_row
    rewrite_one-Pairwise turn [] r apart e new = tt
    rewrite_one-Pairwise turn (x ∷ xs) r apart e new = elim (Bool-cases (p x)) [
      | inl t ↦
          let same : x ≡ r = ground arith in
          let others : Forall (λ y. p y ≡ false) xs = Forall-mono xs (λ y k. key x y k t) apart.0 in
          rw (t, rewrite-none xs others)
            (subst (λ z. Forall (R (f z)) xs) (sym same) (apply_all _ xs others new.1), apart.1)
      | inr t ↦ rw t (
        rewrite_one-Forall (R x) xs r apart.1 (ground arith) (turn _ _ (new.0 t)) apart.0,
        rewrite_one-Pairwise turn xs r apart.1 (ground arith) new.1,
      )
    ]
      where
        apply_all :
            (S : A → Type κ) (ys : List A)
            → Forall (λ y. p y ≡ false) ys
            → Forall (λ y. p y ≡ false → S y) ys
            → Forall S ys
        apply_all S [] h k = tt
        apply_all S (y ∷ ys) h k = (k.0 h.0, apply_all S ys h.1 k.1)

    -- It adds at most one row to any count.
    pub length-select-rewrite :
        (q : A → Bool) (xs : List A)
        → Pairwise R xs
        → length (select q (rewrite p f xs)) ≤ length (select q xs) + 1
    unfolding rewrite select
    length-select-rewrite q [] apart = omega arith
    length-select-rewrite q (x ∷ xs) apart = elim (Bool-cases (p x)) [
      | inl t ↦ rw (t, rewrite-none xs (Forall-mono xs (λ y k. key x y k t) apart.0)) (ground arith)
      | inr t ↦ let rest = length-select-rewrite q xs apart.1 in rw t (ground (arith, rest))
    ]

module _ {ℓ} {A : Type ℓ} where
  -- What holds of a row that is there.
  pub every_Forall {κ} : (P : A → Type κ) (xs : List A) → ((x : A) → P x) → Forall P xs
  every_Forall P [] k = tt
  every_Forall P (x ∷ xs) k = (k x, every_Forall P xs k)

  pub select-Forall {κ} :
      (P : A → Type κ) (p : A → Bool) (xs : List A)
      → Forall P xs
      → Forall (λ x. P x × (p x ≡ true)) (select p xs)
  unfolding select
  select-Forall P p [] h = tt
  select-Forall P p (x ∷ xs) h =
      let rest = select-Forall P p xs h.1 in
      elim (Bool-cases (p x)) [ inl t ↦ rw t ((h.0, t), rest) | inr t ↦ rw t rest ]

  insert_by-Forall {κ} :
      (P : A → Type κ) (cmp : A → A → Ordering) (x : A) (xs : List A)
      → Forall P (insert_by cmp x xs) ↔ (P x × Forall P xs)
  unfolding insert_by
  insert_by-Forall P cmp x [] = ((λ h. h), (λ h. h))
  insert_by-Forall P cmp x (y ∷ ys) =
      let (out, back) = insert_by-Forall P cmp x ys in
      elim (cmp x y)
        as (λ o.
          Forall P (elim o [ Ordering.gt ↦ y ∷ insert_by cmp x ys | _ ↦ x ∷ y ∷ ys ])
          ↔ (P x × (P y × Forall P ys))) [
            | Ordering.gt ↦
                ((λ h. let k = out h.1 in (k.0, (h.0, k.1))), (λ h. (h.1.0, back (h.0, h.1.1))))
            | _ ↦ ((λ h. h), (λ h. h))
          ]

  pub sort_by-Forall {κ} :
      (P : A → Type κ) (cmp : A → A → Ordering) (xs : List A)
      → Forall P (sort_by cmp xs) ↔ Forall P xs
  unfolding sort_by
  sort_by-Forall P cmp [] = ((λ h. h), (λ h. h))
  sort_by-Forall P cmp (x ∷ xs) =
      let (out, back) = insert_by-Forall P cmp x (sort_by cmp xs) in
      let (out', back') = sort_by-Forall P cmp xs in
      ((λ h. let k = out h in (k.0, out' k.1)), (λ h. back (h.0, back' h.1)))
