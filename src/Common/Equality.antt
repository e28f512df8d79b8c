-- ===== src/Common/Equality.antt =====
-- `===` and `includes`, for every type that has decidable equality.
use mathlib.Core.Path.{◌≡◌, refl, sym}
use mathlib.Core.Logic.{◌↔◌}
use mathlib.Core.Bool.{Bool, true, false, ◌&&◌, ◌||◌, not}
use mathlib.Core.List.{List, [], ◌∷◌}

abbrev pub holds {ℓ} : {P : Type ℓ} → Dec P → Bool
holds (no p) = false
holds (yes p) = true

pub holds_iff {ℓ} : {P : Type ℓ} (d : Dec P) → (holds d ≡ true) ↔ P
holds_iff (no p) = ((λ h. cc), (λ q. absurd (p q)))
holds_iff (yes p) = ((λ h. p), (λ q. refl))

-- A type whose values `===` tells apart.
pub record Eq {ℓ} (T : Type ℓ) : Type ℓ where
  pub tell_apart : Discrete T

module _ {ℓ} {T : Type ℓ} ⦃discrete : Eq T⦄ where
  infix 45 ◌==◌
  abbrev pub ◌==◌ : (left right : T) → Bool
  left == right = holds (discrete.tell_apart left right)

  pub ==-iff : (left right : T) → ((left == right) ≡ true) ↔ (left ≡ right)
  ==-iff left right = holds_iff (discrete.tell_apart left right)

  pub ==-comm : (left right : T) → (left == right) ≡ (right == left)
  ==-comm left right = agree (left == right) (right == left) (turn left right) (turn right left)
    where
      turn : (x y : T) → (x == y) ≡ true → (y == x) ≡ true
      turn x y e = (==-iff y x).1 (sym ((==-iff x y).0 e))

      agree : (a b : Bool) → (a ≡ true → b ≡ true) → (b ≡ true → a ≡ true) → a ≡ b
      agree true b h k = sym (h refl)
      agree false true h k = k refl
      agree false false h k = refl

  -- `xs.includes(a)`
  unfoldable pub includes : List T → T → Bool
  includes [] a = false
  includes (x ∷ xs) a = x == a || includes xs a

  -- `new Set(xs).size === xs.length`
  unfoldable pub all_distinct : List T → Bool
  unfolding includes
  all_distinct [] = true
  all_distinct (x ∷ xs) = not (includes xs x) && all_distinct xs
