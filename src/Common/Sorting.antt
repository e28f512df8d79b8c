-- ===== src/Common/Sorting.antt =====
-- `toSorted`: a stable sort by a comparison.
use Prim.Native.Nat.{Ordering}
use mathlib.Core.List.{List, [], ◌∷◌}

module _ {ℓ} {A : Type ℓ} where
  -- An item goes before the first one that does not belong before it.
  unfoldable pub insert_by : (A → A → Ordering) → A → List A → List A
  insert_by cmp x [] = x ∷ []
  insert_by cmp x (y ∷ ys) =
      let rest = insert_by cmp x ys in elim (cmp x y) [ Ordering.gt ↦ y ∷ rest | _ ↦ x ∷ y ∷ ys ]

  unfoldable pub sort_by : (A → A → Ordering) → List A → List A
  unfolding insert_by
  sort_by cmp [] = []
  sort_by cmp (x ∷ xs) = insert_by cmp x (sort_by cmp xs)
