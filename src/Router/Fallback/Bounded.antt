-- ===== src/Router/Fallback/Bounded.antt =====
-- router/src/fallback.ts: the histories of an allocation.
use surfgate.Common.{
  ℕ, ◌+◌, ◌≤◌, ◌≡◌, sym, subst, inl, inr, true, some, List, [], ◌∷◌, ok, arith, Bool-cases, length,
}
use surfgate.Router.Fallback.State.{
  FallbackPolicy, is_policy, FallbackState, requested, parse_shape,
}
use surfgate.Router.Fallback.Transition.{
  FallbackEvent, parse_event, create_fallback_state, transition_fallback_state,
}
use surfgate.Router.Fallback.Invariant.{Inv, stored-Inv}
use surfgate.Router.Fallback.Moves.{
  takes, rank, starts_left, policy_of, starts_of, Move, Moves, transition_total,
}

-- The events that an allocation has accepted, the latest first.
pub data History (s : FallbackState) : List FallbackEvent → FallbackState → Type 0 where
  here : History s [] s
  accepted :
      {es : List FallbackEvent} {u w : FallbackState} (e : FallbackEvent)
      → History s es u
      → parse_event e ≡ some e
      → transition_fallback_state u e ≡ ok w
      → History s (e ∷ es) w

abbrev pub starts_in : List FallbackEvent → ℕ
starts_in [] = 0
starts_in (e ∷ es) = starts_of e + starts_in es

-- The first state of an allocation.
requested-Inv : (p : FallbackPolicy) → is_policy p ≡ true → Inv (requested p)
unfolding parse_shape
requested-Inv p h = record { shape = rw h; checks = tt }

create_fallback_state_lem :
    (p : FallbackPolicy) → is_policy p ≡ true → create_fallback_state p ≡ ok (requested p)
unfolding create_fallback_state
create_fallback_state_lem p h = rw h (stored-Inv _ (requested-Inv p h))

taken :
    (s u : FallbackState) (e : FallbackEvent)
    → Inv s
    → parse_event e ≡ some e
    → transition_fallback_state s e ≡ ok u
    → Move s e u
taken s u e v h t =
    let (moves, refused) = transition_total s e v h in
    elim (Bool-cases (takes s e)) [
      | inl yes' ↦ subst (Moves s e) t (moves yes')
      | inr no' ↦ cc (refused no')
    ]

pub record Bounded (s u : FallbackState) (es : List FallbackEvent) : Type 0 where
  pub valid : Inv u
  pub length_bounded : length es + rank s ≤ rank u
  pub starts_bounded : starts_in es + starts_left u ≤ starts_left s
  pub same_policy : policy_of u ≡ policy_of s

History-bounds :
    (s u : FallbackState) (es : List FallbackEvent) → Inv s → History s es u → Bounded s u es
History-bounds s _ _ v here = ground arith
History-bounds s w _ v (accepted {es} {u} e past h t) =
    let b : Bounded s u es = History-bounds s u es v past in
    let m : Move u e w = taken u w e b.valid h t in ground arith

rank-le : (s : FallbackState) → rank s ≤ 5
rank-le s = ground arith

-- Whatever happens to an allocation under a policy of the schema, it starts at most two
-- allocations and takes at most five events, every state on the way is one that the schema
-- accepts, and its policy stays.
pub allocation_bounded :
    (p : FallbackPolicy) (s u : FallbackState) (es : List FallbackEvent)
    → is_policy p ≡ true
    → create_fallback_state p ≡ ok s
    → History s es u
    → (starts_in es ≤ 2) × (length es ≤ 5) × Inv u × (policy_of u ≡ p)
allocation_bounded p s u es q c past =
    let e : requested p ≡ s = cc (create_fallback_state_lem p q) in
    let past' : History (requested p) es u = subst (λ x. History x es u) (sym e) past in
    let b : Bounded (requested p) u es =
      History-bounds (requested p) u es (requested-Inv p q) past' in
    ground (arith, rank-le u)
