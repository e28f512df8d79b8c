-- ===== src/Common/Comparisons.antt =====
-- Comparisons that put values in order, and their combination: the first comparison decides, and
-- the second one where the first says that two values are equal.
use Prim.Native.Nat.{Ordering, ℕ, compare}
use mathlib.Core.Path.{◌≡◌, sym, ◌∙◌}
use mathlib.Core.Logic.{◌≢◌, ◌⊎◌, inl, inr}
use native.Mathlib.Omega.{arith}
use surfgate.Common.Tests.{ltb, if◌then◌else◌}

-- The answer with the sides exchanged.
abbrev pub flip : Ordering → Ordering
flip Ordering.lt = Ordering.gt
flip Ordering.eq = Ordering.eq
flip Ordering.gt = Ordering.lt

pub record IsComparison {ℓ} {A : Type ℓ} (cmp : A → A → Ordering) : Type ℓ where
  pub flips : (x y : A) → cmp y x ≡ flip (cmp x y)
  pub lt_trans : (x y z : A) → cmp x y ≡ Ordering.lt → cmp y z ≡ Ordering.lt → cmp x z ≡ Ordering.lt
  pub same : (x y z : A) → cmp x y ≡ Ordering.eq → cmp x z ≡ cmp y z

abbrev pub or_else : Ordering → Ordering → Ordering
or_else Ordering.lt o = Ordering.lt
or_else Ordering.eq o = o
or_else Ordering.gt o = Ordering.gt

flip-inj : (a b : Ordering) → flip a ≡ flip b → a ≡ b
flip-inj a b h = ground arith

-- What comes behind two equal values comes behind both.
pub right_same {ℓ} :
    {A : Type ℓ} {f : A → A → Ordering}
    → IsComparison f
    → (x y z : A) → f y z ≡ Ordering.eq
    → f x z ≡ f x y
right_same {f = f} p x y z h = flip-inj _ _ (sym (p.flips x z) ∙ sym (p.same y z x h) ∙ p.flips x y)

-- The larger number first.
abbrev pub larger_first : ℕ → ℕ → Ordering
larger_first m n = if ltb n m then Ordering.lt else if ltb m n then Ordering.gt else Ordering.eq

pub larger_first-IsComparison : IsComparison larger_first
larger_first-IsComparison = record {
  flips = λ x y. ground arith;
  lt_trans = λ x y z h k. ground arith;
  same = λ x y z h. ground arith;
}

flip-or_else : (a b : Ordering) → or_else (flip a) (flip b) ≡ flip (or_else a b)
flip-or_else a b = ground arith

pub or_else-eq :
    (a b : Ordering) → or_else a b ≡ Ordering.eq → (a ≡ Ordering.eq) × (b ≡ Ordering.eq)
or_else-eq a b h = ground arith

or_else-lt :
    (a b : Ordering)
    → or_else a b ≡ Ordering.lt
    → (a ≡ Ordering.lt) ⊎ ((a ≡ Ordering.eq) × (b ≡ Ordering.lt))
or_else-lt a b h = ground arith

module _ {ℓ} {A : Type ℓ} {f : A → A → Ordering} where
  pub gt-flips : IsComparison f → (x y : A) → f x y ≡ Ordering.gt → f y x ≢ Ordering.gt
  gt-flips p x y h k = ground (arith, p.flips x y)

  pub not_after :
      IsComparison f → (x y z : A) → f x y ≢ Ordering.gt → f y z ≢ Ordering.gt → f x z ≢ Ordering.gt
  not_after p x y z h k e = ground (arith, p.lt_trans x y z, p.same x y z, right_same p x y z)

  pub new_flips : IsComparison f → (x y : A) → f x y ≢ Ordering.eq → f y x ≢ Ordering.eq
  new_flips p x y h k = ground (arith, p.flips x y)

  -- What belongs behind `z` belongs behind all that does not.
  pub beyond :
      IsComparison f → (x y z : A) → f x z ≡ Ordering.gt → f y z ≢ Ordering.gt → f x y ≡ Ordering.gt
  beyond p x y z h k = ground (arith, not_after p x y z)

module _ {ℓ} {A : Type ℓ} {f g : A → A → Ordering} where
  or_else-lt_trans :
      IsComparison f
      → IsComparison g
      → (x y z : A) → or_else (f x y) (g x y) ≡ Ordering.lt
      → or_else (f y z) (g y z) ≡ Ordering.lt
      → or_else (f x z) (g x z) ≡ Ordering.lt
  or_else-lt_trans p q x y z h k = elim (or_else-lt _ _ h) [
    | inl a ↦ elim (or_else-lt _ _ k) [
      | inl b ↦ rw (p.lt_trans x y z a b)
      | inr b ↦ rw (right_same p x y z b.0 ∙ a)
    ]
    | inr a ↦ elim (or_else-lt _ _ k) [
      | inl b ↦ rw (p.same x y z a.0 ∙ b)
      | inr b ↦ rw (p.same x y z a.0 ∙ b.0, q.lt_trans x y z a.1 b.1)
    ]
  ]

  pub or_else-IsComparison :
      IsComparison f → IsComparison g → IsComparison (λ x y. or_else (f x y) (g x y))
  or_else-IsComparison p q = record {
    flips = λ x y. rw (p.flips x y, q.flips x y, flip-or_else (f x y) (g x y));
    lt_trans = λ x y z h k. or_else-lt_trans p q x y z h k;
    same = λ x y z h.
        let (h1, h2) = or_else-eq (f x y) (g x y) h in rw (p.same x y z h1, q.same x y z h2);
  }

-- Values that are compared by a part of theirs.
pub pulled_back {ℓ κ} :
    {A : Type ℓ} {B : Type κ} {f : B → B → Ordering} (p : A → B)
    → IsComparison f
    → IsComparison (λ x y. f (p x) (p y))
pulled_back p c = record {
  flips = λ x y. c.flips (p x) (p y);
  lt_trans = λ x y z. c.lt_trans (p x) (p y) (p z);
  same = λ x y z. c.same (p x) (p y) (p z);
}

-- The smaller number first.
pub compare-IsComparison : IsComparison compare
compare-IsComparison = record {
  flips = λ x y. ground arith;
  lt_trans = λ x y z h k. ground arith;
  same = λ x y z h. ground arith;
}
