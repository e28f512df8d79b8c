-- ===== src/Router/Ranking/Unordered.antt =====
-- router/src/candidate.ts: `buildRoutingCandidates` and the order of the sources.
use mathlib.Core.List.{Permᴰ}
use surfgate.Common.{
  ◌≡◌, refl, sym, ap, List, ◌∷◌, Option, none, some, true, ◌&&◌, Bool-cases, inl, inr, length, leb,
  all_distinct, map,
}
use surfgate.Common.Maybe.{◌>>=◌, ◌>>◌, accept}
use surfgate.Common.Sorting.{sort_by}
use surfgate.Common.Sorted.{sort_by_unique}
use surfgate.Common.Permuted.{
  Alike, fail, hold, trans-Alike, length-Permᴰ, map-Permᴰ, all_distinct-Permᴰ,
  all_distinct-IsStrict,
}
use surfgate.Contracts.Text.{text_eq}
use surfgate.Router.Candidate.{
  RoutingCandidate, InputSource, map_option, parse_source, candidate_of, compare_candidates,
  build_routing_candidates,
}
use surfgate.Router.Ranking.Order.{compare_text-eq, compare_candidates-IsComparison}

abbrev add_item : {B : Type 0} → Option B → Option (List B) → Option (List B)
add_item o p = o >>= λ y. p >>= λ ys. some (y ∷ ys)

add_item-Alike :
    {B : Type 0} (o : Option B) {p q : Option (List B)}
    → Alike p q
    → Alike (add_item o p) (add_item o q)
add_item-Alike none fail = fail
add_item-Alike none (hold d) = fail
add_item-Alike (some x) fail = fail
add_item-Alike (some x) (hold d) = hold (Permᴰ.cons refl d)

add_item-add_item :
    {B : Type 0} (o r : Option B) (p : Option (List B))
    → Alike (add_item o (add_item r p)) (add_item r (add_item o p))
add_item-add_item none none p = fail
add_item-add_item none (some y) none = fail
add_item-add_item none (some y) (some l) = fail
add_item-add_item (some x) none p = fail
add_item-add_item (some x) (some y) none = fail
add_item-add_item (some x) (some y) (some l) = hold (Permᴰ.swap refl refl)

pub map_option-Alike :
    {A B : Type 0} (f : A → Option B) {l m : List A}
    → Permᴰ l m
    → Alike (map_option f l) (map_option f m)
unfolding map_option
map_option-Alike f Permᴰ.nil = hold Permᴰ.nil
map_option-Alike f (Permᴰ.cons {b = b} e d) = rw e (add_item-Alike (f b) (map_option-Alike f d))
map_option-Alike f (Permᴰ.swap {a' = x} {b' = y} {l = l} e k) =
    rw (e, k) (add_item-add_item (f y) (f x) (map_option f l))
map_option-Alike f (Permᴰ.trans d k) = trans-Alike (map_option-Alike f d) (map_option-Alike f k)

-- What does not depend on the order of its list gives the same for results that are alike.
pub bind-Alike :
    {A B : Type 0} {p q : Option (List A)} (g h : List A → Option B)
    → Alike p q
    → ((l m : List A) → Permᴰ l m → g l ≡ h m)
    → (p >>= g) ≡ (q >>= h)
bind-Alike g h fail k = refl
bind-Alike g h (hold d) k = k _ _ d

pub sorted_candidates :
    {l m : List RoutingCandidate}
    → Permᴰ l m
    → all_distinct (map (λ c. c.candidate_id) l) ≡ true
    → sort_by compare_candidates l ≡ sort_by compare_candidates m
sorted_candidates {l} d h =
    sort_by_unique _ compare_candidates-IsComparison d
      (all_distinct-IsStrict (λ c. c.candidate_id) (λ x y q. compare_text-eq _ _ q) l h)

pub checked_candidates :
    {l m : List RoutingCandidate}
    → Permᴰ l m
    → (accept (all_distinct (map (λ c. c.candidate_id) l)) >> some (sort_by compare_candidates l))
      ≡ (accept (all_distinct (map (λ c. c.candidate_id) m)) >> some (sort_by compare_candidates m))
checked_candidates {l} d = elim (Bool-cases (all_distinct (map (λ c. c.candidate_id) l))) [
  | inl h ↦
      rw (sym (all_distinct-Permᴰ (map-Permᴰ (λ c. c.candidate_id) d)), h, sorted_candidates d h)
  | inr h ↦ rw (sym (all_distinct-Permᴰ (map-Permᴰ (λ c. c.candidate_id) d)), h)
]

pub build-Permᴰ :
    {l m : List InputSource} → Permᴰ l m → build_routing_candidates l ≡ build_routing_candidates m
unfolding build_routing_candidates
build-Permᴰ {m = m} d = rw (length-Permᴰ d) (
    ap (λ r. accept (leb 1 (length m) && leb (length m) 64) >> r)
      (bind-Alike _ _ (map_option-Alike parse_source d) (λ _ _ f.
        bind-Alike _ _ (map_option-Alike candidate_of f) (λ _ _ k. checked_candidates k))))
