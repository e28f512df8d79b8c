-- ===== src/Common/Permuted.antt =====
-- Permutations of a list under the functions that do not look at the order of its items.
use mathlib.Core.Path.{◌≡◌, refl, sym, ap, ◌∙◌}
use mathlib.Core.Logic.{◌≢◌}
use mathlib.Core.Bool.{Bool, true, false, ◌&&◌, ◌||◌, not}
use mathlib.Core.Option.{Option, none, some}
use mathlib.Core.List.{List, [], ◌∷◌, Permᴰ, map}
use native.Mathlib.Omega.{arith}
use Prim.Native.Nat.{Ordering}
use surfgate.Common.Lists.{length, all}
use surfgate.Common.Equality.{Eq, ◌==◌, ==-iff, includes, all_distinct}
use surfgate.Common.Sorted.{IsNew, IsStrict}

pub length-Permᴰ {ℓ} : {A : Type ℓ} {l m : List A} → Permᴰ l m → length l ≡ length m
length-Permᴰ Permᴰ.nil = refl
length-Permᴰ (Permᴰ.cons e d) = omega (arith, length-Permᴰ d)
length-Permᴰ (Permᴰ.swap e f) = refl
length-Permᴰ (Permᴰ.trans d e) = length-Permᴰ d ∙ length-Permᴰ e

pub map-Permᴰ {ℓ κ} :
    {A : Type ℓ} {B : Type κ} (f : A → B) {l m : List A} → Permᴰ l m → Permᴰ (map f l) (map f m)
map-Permᴰ f Permᴰ.nil = Permᴰ.nil
map-Permᴰ f (Permᴰ.cons e d) = Permᴰ.cons (ap f e) (map-Permᴰ f d)
map-Permᴰ f (Permᴰ.swap e h) = Permᴰ.swap (ap f e) (ap f h)
map-Permᴰ f (Permᴰ.trans d e) = Permᴰ.trans (map-Permᴰ f d) (map-Permᴰ f e)

or_swap : (a b c : Bool) → (a || (b || c)) ≡ (b || (a || c))
or_swap a b c = ground arith

distinct_swap : (a b c d : Bool) → (not (a || c) && (not d && b)) ≡ (not (a || d) && (not c && b))
distinct_swap a b c d = ground arith

pub all-cong {ℓ} :
    {A : Type ℓ} {p q : A → Bool} → ((a : A) → p a ≡ q a) → (l : List A) → all p l ≡ all q l
unfolding all
all-cong h [] = refl
all-cong h (x ∷ xs) = rw (h x, all-cong h xs)

or_false : (a b : Bool) → (a || b) ≡ false → (a ≡ false) × (b ≡ false)
or_false a b h = ground arith

and_true : (a b : Bool) → (not a && b) ≡ true → (a ≡ false) × (b ≡ true)
and_true a b h = ground arith

bool_ext : (a b : Bool) → (a ≡ true → b ≡ true) → (b ≡ true → a ≡ true) → a ≡ b
bool_ext a b h k = ground arith

true_not_false : true ≢ false
true_not_false h = cc

module _ {ℓ} {A : Type ℓ} ⦃e : Eq A⦄ where
  ==-comm : (a b : A) → (a == b) ≡ (b == a)
  ==-comm a b =
      bool_ext _ _ (λ h. (==-iff b a).1 (sym ((==-iff a b).0 h)))
        (λ h. (==-iff a b).1 (sym ((==-iff b a).0 h)))

  pub includes-Permᴰ : {l m : List A} → Permᴰ l m → (a : A) → includes l a ≡ includes m a
  unfolding includes
  includes-Permᴰ Permᴰ.nil a = refl
  includes-Permᴰ (Permᴰ.cons p d) a = rw (p, includes-Permᴰ d a)
  includes-Permᴰ (Permᴰ.swap {a' = x} {b' = y} {l = l} p q) a =
      rw (p, q) (or_swap (y == a) (x == a) (includes l a))
  includes-Permᴰ (Permᴰ.trans d f) a = includes-Permᴰ d a ∙ includes-Permᴰ f a

  pub all_distinct-Permᴰ : {l m : List A} → Permᴰ l m → all_distinct l ≡ all_distinct m
  unfolding all_distinct includes
  all_distinct-Permᴰ Permᴰ.nil = refl
  all_distinct-Permᴰ (Permᴰ.cons p d) = rw (p, all_distinct-Permᴰ d, includes-Permᴰ d)
  all_distinct-Permᴰ (Permᴰ.swap {a' = x} {b' = y} {l = l} p q) =
      rw (p, q, ==-comm x y) (distinct_swap (y == x) (all_distinct l) (includes l y) (includes l x))
  all_distinct-Permᴰ (Permᴰ.trans d f) = all_distinct-Permᴰ d ∙ all_distinct-Permᴰ f

  -- The items of a list are told apart by a comparison that tells apart what their keys tell apart.
  not_included-IsNew :
      {B : Type ℓ} {cmp : B → B → Ordering} (key : B → A)
      → ((x y : B) → cmp x y ≡ Ordering.eq → key x ≡ key y)
      → (x : B) (l : List B) → includes (map key l) (key x) ≡ false
      → IsNew cmp x l
  unfolding includes
  not_included-IsNew key h x [] n = tt
  not_included-IsNew key h x (y ∷ ys) n =
      let (first, rest) = or_false (key y == key x) (includes (map key ys) (key x)) n in
      (
        (λ q. true_not_false (sym ((==-iff (key y) (key x)).1 (sym (h x y q))) ∙ first)),
        not_included-IsNew key h x ys rest,
      )

  pub all_distinct-IsStrict :
      {B : Type ℓ} {cmp : B → B → Ordering} (key : B → A)
      → ((x y : B) → cmp x y ≡ Ordering.eq → key x ≡ key y)
      → (l : List B) → all_distinct (map key l) ≡ true
      → IsStrict cmp l
  unfolding all_distinct
  all_distinct-IsStrict key h [] d = tt
  all_distinct-IsStrict key h (x ∷ xs) d =
      let (new, rest) = and_true (includes (map key xs) (key x)) (all_distinct (map key xs)) d in
      (not_included-IsNew key h x xs new, all_distinct-IsStrict key h xs rest)

-- Two results that fail alike, or else hold the same items.
pub data Alike {ℓ} {A : Type ℓ} : Option (List A) → Option (List A) → Type ℓ where
  fail : Alike none none
  hold : {l m : List A} → Permᴰ l m → Alike (some l) (some m)

pub trans-Alike {ℓ} : {A : Type ℓ} {p q r : Option (List A)} → Alike p q → Alike q r → Alike p r
trans-Alike fail fail = fail
trans-Alike (hold d) (hold f) = hold (Permᴰ.trans d f)
