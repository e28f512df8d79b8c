-- ===== src/Common/Sorted.antt =====
-- Sorts by a comparison: sorted lists, permutations, and lists whose items the comparison tells
-- apart.
use Prim.Native.Nat.{Ordering}
use mathlib.Core.Path.{◌≡◌, refl, sym, ap, subst, ◌∙◌}
use mathlib.Core.Logic.{◌≢◌, ◌⊎◌, inl, inr}
use native.Mathlib.Omega.{arith}
use mathlib.Core.List.{List, [], ◌∷◌, Permᴰ}
use mathlib.Core.List.Permᴰ
use surfgate.Common.Sorting.{insert_by, sort_by}
use mathlib.Core.Option.{Option, none, some}
use surfgate.Common.Rows.{Forall, sort_by-Forall}
use surfgate.Common.Comparisons.{IsComparison, flip, gt-flips, not_after, beyond, new_flips}

-- Nothing of a list belongs before `x`.
abbrev pub IsFirst {ℓ} : {A : Type ℓ} → (A → A → Ordering) → A → List A → Type 0
IsFirst cmp x [] = Unit {0}
IsFirst cmp x (y ∷ ys) = (cmp x y ≢ Ordering.gt) × IsFirst cmp x ys

abbrev pub IsSorted {ℓ} : {A : Type ℓ} → (A → A → Ordering) → List A → Type 0
IsSorted cmp [] = Unit {0}
IsSorted cmp (x ∷ xs) = IsFirst cmp x xs × IsSorted cmp xs

-- The comparison tells `x` from every item of the list.
abbrev pub IsNew {ℓ} : {A : Type ℓ} → (A → A → Ordering) → A → List A → Type 0
IsNew cmp x [] = Unit {0}
IsNew cmp x (y ∷ ys) = (cmp x y ≢ Ordering.eq) × IsNew cmp x ys

-- The comparison tells the items of a list apart.
abbrev pub IsStrict {ℓ} : {A : Type ℓ} → (A → A → Ordering) → List A → Type 0
IsStrict cmp [] = Unit {0}
IsStrict cmp (x ∷ xs) = IsNew cmp x xs × IsStrict cmp xs

ap2 {ℓ} : {A B C : Type ℓ} (f : A → B → C) {a a' : A} {b b' : B} → a ≡ a' → b ≡ b' → f a b ≡ f a' b'
ap2 f e k = cc

subst2 {ℓ} :
    {A B : Type ℓ} (P : A → B → Type 0) {a a' : A} {b b' : B} → a ≡ a' → b ≡ b' → P a b → P a' b'
subst2 P {a' = a'} {b = b} e k h = subst (λ y. P a' y) k (subst (λ x. P x b) e h)

gt_cases : (o : Ordering) → (o ≡ Ordering.gt) ⊎ (o ≢ Ordering.gt)
gt_cases Ordering.lt = inr (λ h. cc)
gt_cases Ordering.eq = inr (λ h. cc)
gt_cases Ordering.gt = inl refl

module _ {ℓ} {A : Type ℓ} (cmp : A → A → Ordering) where
  insert_by-skips :
      (x y : A) (ys : List A)
      → cmp x y ≡ Ordering.gt
      → insert_by cmp x (y ∷ ys) ≡ y ∷ insert_by cmp x ys
  unfolding insert_by
  insert_by-skips x y ys h = rw (h, insert_by)

  insert_by-stops :
      (x y : A) (ys : List A) → cmp x y ≢ Ordering.gt → insert_by cmp x (y ∷ ys) ≡ x ∷ y ∷ ys
  unfolding insert_by
  insert_by-stops x y ys h = ground arith

  pub insert_by-Permᴰ : (x : A) (ys : List A) → Permᴰ (insert_by cmp x ys) (x ∷ ys)
  unfolding insert_by
  insert_by-Permᴰ x [] = Permᴰ.refl _
  insert_by-Permᴰ x (y ∷ ys) = elim (gt_cases (cmp x y)) [
    | inl h ↦
        rw (insert_by-skips x y ys h)
          (Permᴰ.trans (Permᴰ.cons refl (insert_by-Permᴰ x ys)) (Permᴰ.swap refl refl))
    | inr h ↦ rw (insert_by-stops x y ys h) (Permᴰ.refl _)
  ]

  pub sort_by-Permᴰ : (xs : List A) → Permᴰ (sort_by cmp xs) xs
  unfolding sort_by
  sort_by-Permᴰ [] = Permᴰ.nil
  sort_by-Permᴰ (x ∷ xs) = Permᴰ.trans (insert_by-Permᴰ x _) (Permᴰ.cons refl (sort_by-Permᴰ xs))

  IsFirst-through :
      IsComparison cmp
      → (x y : A) (ys : List A) → cmp x y ≢ Ordering.gt
      → IsFirst cmp y ys
      → IsFirst cmp x ys
  IsFirst-through p x y [] h k = tt
  IsFirst-through p x y (z ∷ zs) h k = (not_after p x y z h k.0, IsFirst-through p x y zs h k.1)

  IsFirst-insert_by :
      (x y : A) (ys : List A)
      → cmp x y ≢ Ordering.gt
      → IsFirst cmp x ys
      → IsFirst cmp x (insert_by cmp y ys)
  unfolding insert_by
  IsFirst-insert_by x y [] h k = (h, tt)
  IsFirst-insert_by x y (z ∷ zs) h k = elim (gt_cases (cmp y z)) [
    | inl g ↦ rw (insert_by-skips y z zs g) (k.0, IsFirst-insert_by x y zs h k.1)
    | inr g ↦ rw (insert_by-stops y z zs g) (h, k)
  ]

  insert_by-IsSorted :
      IsComparison cmp → (x : A) (ys : List A) → IsSorted cmp ys → IsSorted cmp (insert_by cmp x ys)
  unfolding insert_by
  insert_by-IsSorted p x [] h = (tt, tt)
  insert_by-IsSorted p x (y ∷ ys) h = elim (gt_cases (cmp x y)) [
    | inl g ↦
        rw (insert_by-skips x y ys g)
          (IsFirst-insert_by y x ys (gt-flips p x y g) h.0, insert_by-IsSorted p x ys h.1)
    | inr g ↦ rw (insert_by-stops x y ys g) ((g, IsFirst-through p x y ys g h.0), h)
  ]

  pub sort_by-IsSorted : IsComparison cmp → (xs : List A) → IsSorted cmp (sort_by cmp xs)
  unfolding sort_by
  sort_by-IsSorted p [] = tt
  sort_by-IsSorted p (x ∷ xs) = insert_by-IsSorted p x _ (sort_by-IsSorted p xs)

  lt_of_not : (x y : A) → cmp x y ≢ Ordering.eq → cmp x y ≢ Ordering.gt → cmp x y ≡ Ordering.lt
  lt_of_not x y h k = ground arith

  above :
      IsComparison cmp
      → (x y : A) → cmp x y ≢ Ordering.eq
      → cmp x y ≢ Ordering.gt
      → cmp y x ≡ Ordering.gt
  above p x y h k = ground (arith, p.flips x y)

  in_front :
      IsComparison cmp
      → (x y : A) (l : List A) → cmp x y ≢ Ordering.eq
      → insert_by cmp x l ≡ x ∷ l
      → insert_by cmp y l ≡ y ∷ l
      → insert_by cmp x (y ∷ l) ≡ insert_by cmp y (x ∷ l)
  in_front p x y l h a b = elim (gt_cases (cmp x y)) [
    | inl g ↦
        insert_by-skips x y l g ∙ ap (λ m. y ∷ m) a ∙ sym (insert_by-stops y x l (gt-flips p x y g))
    | inr g ↦
        insert_by-stops x y l g ∙ sym (insert_by-skips y x l (above p x y h g) ∙ ap (λ m. x ∷ m) b)
  ]

  -- One of two items goes before the head of a list, and the other one behind it.
  apart :
      IsComparison cmp
      → (x y z : A) (zs : List A) → cmp x z ≡ Ordering.gt
      → cmp y z ≢ Ordering.gt
      → insert_by cmp x (insert_by cmp y (z ∷ zs)) ≡ insert_by cmp y (insert_by cmp x (z ∷ zs))
  apart p x y z zs h k =
      let after : cmp x y ≡ Ordering.gt = beyond p x y z h k in
      ap (insert_by cmp x) (insert_by-stops y z zs k)
      ∙ insert_by-skips x y (z ∷ zs) after
      ∙ ap (λ m. y ∷ m) (insert_by-skips x z zs h)
      ∙ sym (insert_by-stops y z _ k)
      ∙ ap (insert_by cmp y) (sym (insert_by-skips x z zs h))

  insert_by-insert_by :
      IsComparison cmp
      → (x y : A) (l : List A) → cmp x y ≢ Ordering.eq
      → insert_by cmp x (insert_by cmp y l) ≡ insert_by cmp y (insert_by cmp x l)
  unfolding insert_by
  insert_by-insert_by p x y [] h = in_front p x y [] h refl refl
  insert_by-insert_by p x y (z ∷ zs) h = elim (gt_cases (cmp x z)) [
    | inl g ↦ elim (gt_cases (cmp y z)) [
      | inl k ↦
          ap (insert_by cmp x) (insert_by-skips y z zs k)
          ∙ insert_by-skips x z _ g
          ∙ ap (λ m. z ∷ m) (insert_by-insert_by p x y zs h)
          ∙ sym (ap (insert_by cmp y) (insert_by-skips x z zs g) ∙ insert_by-skips y z _ k)
      | inr k ↦ apart p x y z zs g k
    ]
    | inr g ↦ elim (gt_cases (cmp y z)) [
      | inl k ↦ sym (apart p y x z zs k g)
      | inr k ↦
          ap (insert_by cmp x) (insert_by-stops y z zs k)
          ∙ in_front p x y (z ∷ zs) h (insert_by-stops x z zs g) (insert_by-stops y z zs k)
          ∙ ap (insert_by cmp y) (sym (insert_by-stops x z zs g))
    ]
  ]

  IsNew-Permᴰ : (x : A) {l m : List A} → Permᴰ l m → IsNew cmp x l → IsNew cmp x m
  IsNew-Permᴰ x Permᴰ.nil h = tt
  IsNew-Permᴰ x (Permᴰ.cons e d) h = (subst (λ a. cmp x a ≢ Ordering.eq) e h.0, IsNew-Permᴰ x d h.1)
  IsNew-Permᴰ x (Permᴰ.swap e f) (h, (k, r)) =
      (subst (λ a. cmp x a ≢ Ordering.eq) f k, (subst (λ a. cmp x a ≢ Ordering.eq) e h, r))
  IsNew-Permᴰ x (Permᴰ.trans d f) h = IsNew-Permᴰ x f (IsNew-Permᴰ x d h)

  IsStrict-Permᴰ : IsComparison cmp → {l m : List A} → Permᴰ l m → IsStrict cmp l → IsStrict cmp m
  IsStrict-Permᴰ p Permᴰ.nil h = tt
  IsStrict-Permᴰ p (Permᴰ.cons {l₂ = m} e d) h =
      (subst (λ a. IsNew cmp a m) e (IsNew-Permᴰ _ d h.0), IsStrict-Permᴰ p d h.1)
  IsStrict-Permᴰ p (Permᴰ.swap {a = a} {b} {l = l} e f) ((n, u), (v, s)) =
      let other : cmp b a ≢ Ordering.eq = new_flips p a b n in
      (subst2 (λ x y. IsNew cmp x (y ∷ l)) f e (other, v), (subst (λ x. IsNew cmp x l) e u, s))
  IsStrict-Permᴰ p (Permᴰ.trans d f) h = IsStrict-Permᴰ p f (IsStrict-Permᴰ p d h)

  -- The items of a list that the comparison tells apart are sorted alike in every order.
  pub sort_by_unique :
      IsComparison cmp → {l m : List A} → Permᴰ l m → IsStrict cmp l → sort_by cmp l ≡ sort_by cmp m
  unfolding sort_by
  sort_by_unique p Permᴰ.nil h = refl
  sort_by_unique p (Permᴰ.cons e d) h = ap2 (insert_by cmp) e (sort_by_unique p d h.1)
  sort_by_unique p (Permᴰ.swap {a = a} {b} {l = l} e f) h =
      insert_by-insert_by p a b (sort_by cmp l) h.0.0
      ∙ ap2 (λ x y. insert_by cmp x (insert_by cmp y (sort_by cmp l))) f e
  sort_by_unique p (Permᴰ.trans d f) h =
      sort_by_unique p d h ∙ sort_by_unique p f (IsStrict-Permᴰ p d h)

-- `limit 1`
abbrev pub first_of {ℓ} : {A : Type ℓ} → List A → Option A
first_of [] = none
first_of (x ∷ xs) = some x

module _ {ℓ} {A : Type ℓ} (cmp : A → A → Ordering) where
  pub first_of-Forall :
      (P : A → Type 0) (xs : List A) (r : A)
      → Forall P xs
      → first_of (sort_by cmp xs) ≡ some r
      → P r
  first_of-Forall P xs r h e = headed (sort_by cmp xs) ((sort_by-Forall P cmp xs).1 h) e
    where
      headed : (ys : List A) → Forall P ys → first_of ys ≡ some r → P r
      headed [] h e = cc
      headed (y ∷ ys) h e = let same : y ≡ r = ground arith in subst P same h.0

  flip_same : (o : Ordering) → o ≡ flip o → o ≢ Ordering.gt
  flip_same Ordering.lt h k = cc
  flip_same Ordering.eq h k = cc
  flip_same Ordering.gt h k = cc

  -- The first of a sorted list belongs behind none of its items.
  pub first_of-least :
      IsComparison cmp
      → (xs : List A) (r : A) → first_of (sort_by cmp xs) ≡ some r
      → Forall (λ x. cmp r x ≢ Ordering.gt) xs
  first_of-least p xs r e =
      (sort_by-Forall _ cmp xs).0 (headed (sort_by cmp xs) (sort_by-IsSorted cmp p xs) e)
    where
      spread : (x : A) (ys : List A) → IsFirst cmp x ys → Forall (λ y. cmp x y ≢ Ordering.gt) ys
      spread x [] h = tt
      spread x (y ∷ ys) h = (h.0, spread x ys h.1)

      headed :
          (ys : List A)
          → IsSorted cmp ys
          → first_of ys ≡ some r
          → Forall (λ y. cmp r y ≢ Ordering.gt) ys
      headed [] s e = tt
      headed (y ∷ ys) s e =
          let same : y ≡ r = ground arith in
          subst (λ z. Forall (λ x. cmp z x ≢ Ordering.gt) (y ∷ ys)) same
            (flip_same (cmp y y) (p.flips y y), spread y ys s.0)
