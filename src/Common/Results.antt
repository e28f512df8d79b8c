-- ===== src/Common/Results.antt =====
-- Code that throws returns a result; `do` blocks chain the calls.
use mathlib.Core.Path.{◌≡◌, refl}
use mathlib.Core.Bool.{Bool, true, false}

pub data Result {ℓ κ} (E : Type ℓ) (A : Type κ) : Type (ℓ ⊔ κ) where
  err : (thrown : E) → Result E A
  ok : (value : A) → Result E A

module _ {ℓ κ} {E : Type ℓ} {B : Type κ} where
  infixl 4 ◌>>=◌ ◌>>◌
  abbrev pub ◌>>=◌ {ι} : {A : Type ι} (call : Result E A) (rest : A → Result E B) → Result E B
  err thrown >>= rest = err thrown
  ok value >>= rest = rest value

  abbrev pub ◌>>◌ : (call : Result E (Unit {0})) (rest : Result E B) → Result E B
  call >> rest = call >>= λ _. rest

-- `if (!condition) throw e`
abbrev pub guard {ℓ} : {E : Type ℓ} (condition : Bool) (thrown : E) → Result E (Unit {0})
guard false thrown = err thrown
guard true thrown = ok tt

abbrev pub is_ok {ℓ κ} : {E : Type ℓ} {A : Type κ} → Result E A → Bool
is_ok (err thrown) = false
is_ok (ok value) = true

-- What a chain of calls that succeeds has gone through.
pub bind-ok {ℓ κ ι} :
    {E : Type ℓ} {A : Type κ} {B : Type ι} (m : Result E A) (f : A → Result E B) (b : B)
    → (m >>= f) ≡ ok b
    → (a : A) × (m ≡ ok a) × (f a ≡ ok b)
bind-ok (ok a) f b h = (a, refl, h)
bind-ok (err e) f b h = cc

pub guard-ok {ℓ κ} :
    {E : Type ℓ} {B : Type κ} (t : Bool) (e : E) (r : Result E B) (b : B)
    → (guard t e >> r) ≡ ok b
    → (t ≡ true) × (r ≡ ok b)
guard-ok true e r b h = (refl, h)
guard-ok false e r b h = cc
