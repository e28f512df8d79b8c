-- ===== src/Common/Maybe.antt =====
-- `do` blocks over values that may be absent: the parts of a schema, each of which may refuse.
use mathlib.Core.Path.{◌≡◌, refl}
use mathlib.Core.Bool.{Bool, true, false}
use mathlib.Core.Option.{Option, none, some}

infixl 5 ◌>>=◌ ◌>>◌
abbrev pub ◌>>=◌ {ℓ κ} : {A : Type ℓ} {B : Type κ} → Option A → (A → Option B) → Option B
some a >>= f = f a
none >>= f = none

abbrev pub ◌>>◌ {ℓ} : {B : Type ℓ} → Option (Unit {0}) → Option B → Option B
m >> k = m >>= λ _. k

abbrev pub accept : Bool → Option (Unit {0})
accept true = some tt
accept false = none

-- What a chain that does not refuse has gone through.
pub bind-some {ℓ κ} :
    {A : Type ℓ} {B : Type κ} (m : Option A) (f : A → Option B) (b : B)
    → (m >>= f) ≡ some b
    → (a : A) × (m ≡ some a) × (f a ≡ some b)
bind-some (some a) f b h = (a, refl, h)
bind-some none f b h = cc

pub accept-some {ℓ} :
    {A : Type ℓ} (t : Bool) (r : Option A) (a : A)
    → (accept t >> r) ≡ some a
    → (t ≡ true) × (r ≡ some a)
accept-some true r a h = (refl, h)
accept-some false r a h = cc

pub some_inj {ℓ} : {A : Type ℓ} {x y : A} → some x ≡ some y → x ≡ y
some_inj e = cc
