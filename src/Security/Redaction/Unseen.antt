-- ===== src/Security/Redaction/Unseen.antt =====
-- security/src/redaction.ts: how many objects a visit has not seen.
use surfgate.Common.{
  ℕ, zero, suc, ◌+◌, ◌≤◌, ◌<◌, ◌≡◌, ◌≢◌, refl, sym, ◌∙◌, subst, true, false, List, [], ◌∷◌,
  if◌then◌else◌, includes, ◌==◌, ==-iff, arith, Bool-cases, inl, inr,
}
use surfgate.Contracts.Text.{text_eq}
use surfgate.Security.Redaction.Visit.{address_eq}

-- How many of the first addresses have not been seen.
unfoldable pub unseen : ℕ → List ℕ → ℕ
unfolding includes
unseen zero seen = 0
unseen (suc n) seen = (if includes seen n then 0 else 1) + unseen n seen

-- What has been seen stays so.
abbrev pub Grows : List ℕ → List ℕ → Type 0
Grows s t = (i : ℕ) → includes s i ≡ true → includes t i ≡ true

pub cons-Grows : (s : List ℕ) (i : ℕ) → Grows s (i ∷ s)
unfolding includes
cons-Grows s i j h = ground (arith, h)

pub unseen-Grows : (n : ℕ) (s t : List ℕ) → Grows s t → unseen n t ≤ unseen n s
unfolding unseen
unseen-Grows zero s t g = omega arith
unseen-Grows (suc n) s t g = ground (arith, g n, unseen-Grows n s t g)

includes_here : (s : List ℕ) (i : ℕ) → includes (i ∷ s) i ≡ true
unfolding includes
includes_here s i = rw ((==-iff i i).1 refl) refl

pub unseen_cons :
    (n i : ℕ) (s : List ℕ) → i < n → includes s i ≡ false → unseen n (i ∷ s) + 1 ≤ unseen n s
unfolding unseen
unseen_cons zero i s h k = absurd (omega (arith, h))
unseen_cons (suc n) i s h k = elim (Bool-cases (i == n)) [
  | inl e ↦
      let same : i ≡ n = (==-iff i n).0 e in
      subst (λ j. includes s j ≡ false → unseen (suc n) (j ∷ s) + 1 ≤ unseen (suc n) s) (sym same)
        (λ f. ground (arith, f, includes_here s n, unseen-Grows n s (n ∷ s) (cons-Grows s n))) k
  | inr e ↦
      let other : i ≢ n = λ same. true_false (sym ((==-iff i n).1 same) ∙ e) in
      let lower : i < n = omega (arith, h, other) in rw e (omega (arith, unseen_cons n i s lower k))
]
  where
    true_false : true ≡ false → ⊥
    true_false e = cc

pub unseen_first : (n : ℕ) → unseen n [] < n + 1
unfolding unseen includes
unseen_first zero = omega arith
unseen_first (suc n) = omega (arith, unseen_first n)
