-- ===== src/Common/Lists.antt =====
-- Lists over the native numbers, under the library's names.
use Prim.Native.Nat.{ℕ, zero, suc, ◌+◌}
use mathlib.Core.Path.{◌≡◌, refl}
use mathlib.Core.Bool.{Bool, true, false, ◌&&◌, ◌||◌}
use mathlib.Core.Option.{Option, none, some}
use mathlib.Core.List.{List, [], ◌∷◌, ◌++◌}
use native.Mathlib.Omega.{arith}

module _ {ℓ} {A : Type ℓ} where
  abbrev pub length : List A → ℕ
  length [] = 0
  length (x ∷ xs) = suc (length xs)

  abbrev pub get_elem? : List A → ℕ → Option A
  get_elem? [] i = none
  get_elem? (x ∷ xs) zero = some x
  get_elem? (x ∷ xs) (suc i) = get_elem? xs i

  abbrev pub last? : List A → Option A
  last? [] = none
  last? (x ∷ []) = some x
  last? (x ∷ y ∷ xs) = last? (y ∷ xs)

  unfoldable pub all : (A → Bool) → List A → Bool
  all p [] = true
  all p (x ∷ xs) = p x && all p xs

  unfoldable pub any : (A → Bool) → List A → Bool
  any p [] = false
  any p (x ∷ xs) = p x || any p xs

  pub length-append : (xs ys : List A) → length (xs ++ ys) ≡ length xs + length ys
  length-append [] ys = omega arith
  length-append (x ∷ xs) ys = omega (arith, length-append xs ys)

-- The checks of a schema: every one has to pass.
unfoldable pub passes : List Bool → Bool
passes [] = true
passes (b ∷ bs) = b && passes bs

abbrev pub AllTrue : List Bool → Type 0
AllTrue [] = Unit {0}
AllTrue (b ∷ bs) = (b ≡ true) × AllTrue bs

pub passes-AllTrue : (bs : List Bool) → passes bs ≡ true → AllTrue bs
unfolding passes
passes-AllTrue [] h = tt
passes-AllTrue (true ∷ bs) h = (refl, passes-AllTrue bs h)
passes-AllTrue (false ∷ bs) h = cc

pub AllTrue-passes : (bs : List Bool) → AllTrue bs → passes bs ≡ true
unfolding passes
AllTrue-passes [] h = refl
AllTrue-passes (b ∷ bs) h = rw h.0 (AllTrue-passes bs h.1)
