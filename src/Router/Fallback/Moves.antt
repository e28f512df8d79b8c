-- ===== src/Router/Fallback/Moves.antt =====
-- router/src/fallback.ts: the events that a state takes, and what a move leads to.
use surfgate.Common.{
  ==-iff, ℕ, ◌+◌, ◌≤◌, ◌<◌, ◌≡◌, refl, ◌↔◌, ◌≢◌, inl, inr, Bool, true, false, Option, none, some,
  Result, ok, err, arith, ◌∙◌, Bool-cases,
}
use surfgate.Contracts.Text.{text_eq}
use surfgate.Router.Identity.{CandidateIdentity, parse_identity}
use surfgate.Router.Fallback.Classify.{
  FailureClass, is_fallback_eligible, classify_fallback_failure,
}
use surfgate.Router.Fallback.State.{
  FallbackPolicy, is_policy, parse_shape, FallbackState, requested, routed, allocating,
  fallback_routed, fallback_allocating, active, failed,
}
use surfgate.Router.Fallback.Transition.{
  FallbackEvent, route_selected, route_failed, allocation_started, allocation_succeeded,
  allocation_failed, parse_event, FallbackError, invalid_transition, stored, can_fall_back,
  after_failure, transition, transition_fallback_state,
}
use surfgate.Router.Fallback.Invariant.{
  Inv, parse_state-Inv, stored-Inv, shape-routed, shape-allocating, shape-fallback_routed,
  shape-fallback_allocating, routed-Inv, no_route-Inv, first_active-Inv, first_failed-Inv,
  fallback_routed-Inv, second_active-Inv, second_failed-Inv,
}

-- The events that a state takes.
abbrev pub takes : FallbackState → FallbackEvent → Bool
takes (requested p) (route_selected c) = true
takes (requested p) route_failed = true
takes (routed c a p) allocation_started = true
takes (allocating c a p) allocation_succeeded = true
takes (allocating c a p) (allocation_failed f d) = true
takes (fallback_routed o c a b p f rs) allocation_started = true
takes (fallback_allocating o c a b p f rs) allocation_succeeded = true
takes (fallback_allocating o c a b p f rs) (allocation_failed g d) = true
takes _ _ = false

-- How far an allocation has come.
abbrev pub rank : FallbackState → ℕ
rank (requested p) = 0
rank (routed c a p) = 1
rank (allocating c a p) = 2
rank (fallback_routed o c a b p f rs) = 3
rank (fallback_allocating o c a b p f rs) = 4
rank (active c tried u p f) = 5
rank (failed tried u p f g rs) = 5

-- How many allocations it may still start.
abbrev pub starts_left : FallbackState → ℕ
starts_left (requested p) = 2
starts_left (routed c a p) = 2
starts_left (allocating c a p) = 1
starts_left (fallback_routed o c a b p f rs) = 1
starts_left _ = 0

abbrev pub policy_of : FallbackState → FallbackPolicy
policy_of (requested p) = p
policy_of (routed c a p) = p
policy_of (allocating c a p) = p
policy_of (fallback_routed o c a b p f rs) = p
policy_of (fallback_allocating o c a b p f rs) = p
policy_of (active c tried u p f) = p
policy_of (failed tried u p f g rs) = p

-- 1 for an event that starts an allocation.
abbrev pub starts_of : FallbackEvent → ℕ
starts_of allocation_started = 1
starts_of (route_selected c) = 0
starts_of route_failed = 0
starts_of allocation_succeeded = 0
starts_of (allocation_failed f d) = 0

-- A move to a state that the schema accepts, further on, under the same policy.
pub record Move (s : FallbackState) (e : FallbackEvent) (u : FallbackState) : Type 0 where
  pub stays_valid : Inv u
  pub advances : rank s < rank u
  pub counts : starts_left u + starts_of e ≤ starts_left s
  pub same_policy : policy_of u ≡ policy_of s

abbrev pub Moves : FallbackState → FallbackEvent → Result FallbackError FallbackState → Type 0
Moves s e (ok u) = Move s e u
Moves s e (err x) = ⊥

stored-Moves :
    (s : FallbackState) (e : FallbackEvent) (u : FallbackState) → Move s e u → Moves s e (stored u)
stored-Moves s e u m = rw (stored-Inv u m.stays_valid) m

is_policy-requested : (p : FallbackPolicy) → Inv (requested p) → is_policy p ≡ true
unfolding parse_shape
is_policy-requested p v = ground (arith, v.shape)

event_identity :
    (c : CandidateIdentity)
    → parse_event (route_selected c) ≡ some (route_selected c)
    → parse_identity c ≡ some c
unfolding parse_event
event_identity c h = ground arith

event_fallback :
    (f : FailureClass) (d : CandidateIdentity)
    → parse_event (allocation_failed f (some d)) ≡ some (allocation_failed f (some d))
    → parse_identity d ≡ some d
unfolding parse_event
event_fallback f d h = ground arith

after_failure-Move :
    (c a : CandidateIdentity) (p : FallbackPolicy) (f : FailureClass) (d : Option CandidateIdentity)
    → Inv (allocating c a p)
    → parse_event (allocation_failed f d) ≡ some (allocation_failed f d)
    → Move (allocating c a p) (allocation_failed f d) (after_failure c a p f d)
unfolding after_failure
after_failure-Move c a p f none v h =
    let (i, j, q) = shape-allocating c a p v.shape in
    record {
      stays_valid = first_failed-Inv p q a f none j;
      advances = omega arith;
      counts = omega arith;
      same_policy = refl;
    }
after_failure-Move c a p f (some d) v h =
    let (i, j, q) = shape-allocating c a p v.shape in
    elim (Bool-cases (can_fall_back p f c (some d))) [
      | inl crosses ↦ rw crosses (record {
        stays_valid = fallback_routed-Inv p q c d f i (event_fallback f d h) crosses;
        advances = omega arith;
        counts = omega arith;
        same_policy = refl;
      })
      | inr stays ↦ rw stays (record {
        stays_valid = first_failed-Inv p q a f (some d) j;
        advances = omega arith;
        counts = omega arith;
        same_policy = refl;
      })
    ]

arrive :
    (s : FallbackState) (e : FallbackEvent) (u : FallbackState)
    → Inv u
    → rank s < rank u
    → starts_left u + starts_of e ≤ starts_left s
    → policy_of u ≡ policy_of s
    → Moves s e (stored u)
arrive s e u i r c q =
    stored-Moves s e u (record { stays_valid = i; advances = r; counts = c; same_policy = q })

transition-Moves :
    (s : FallbackState) (e : FallbackEvent)
    → Inv s
    → parse_event e ≡ some e
    → takes s e ≡ true
    → Moves s e (transition s e)
unfolding transition
transition-Moves (requested p) (route_selected c) v h t =
    arrive _ _ _ (routed-Inv p (is_policy-requested p v) c (event_identity c h)) (omega arith)
      (omega arith) refl
transition-Moves (requested p) route_failed v h t =
    arrive _ _ _ (no_route-Inv p (is_policy-requested p v) _) (omega arith) (omega arith) refl
transition-Moves (routed c a p) allocation_started v h t =
    arrive _ _ _ (record { shape = shape-routed c a p v.shape; checks = v.checks }) (omega arith)
      (omega arith) refl
transition-Moves (allocating c a p) allocation_succeeded v h t =
    let (i, j, q) = shape-allocating c a p v.shape in
    arrive _ _ _ (first_active-Inv p q c a i j v.checks.0) (omega arith) (omega arith) refl
transition-Moves (allocating c a p) (allocation_failed f d) v h t =
    stored-Moves _ _ _ (after_failure-Move c a p f d v h)
transition-Moves (fallback_routed o c a b p f rs) allocation_started v h t =
    arrive _ _ _
      (record { shape = shape-fallback_routed o c a b p f rs v.shape; checks = v.checks })
      (omega arith) (omega arith) refl
transition-Moves (fallback_allocating o c a b p f rs) allocation_succeeded v h t =
    let (i, j, k, q) = shape-fallback_allocating o c a b p f rs v.shape in
    arrive _ _ _ (second_active-Inv p q c a b f i j k v.checks.1.0 v.checks.1.1) (omega arith)
      (omega arith) refl
transition-Moves (fallback_allocating o c a b p f rs) (allocation_failed g d) v h t =
    let (i, j, k, q) = shape-fallback_allocating o c a b p f rs v.shape in
    arrive _ _ _ (second_failed-Inv p q a b f g j k v.checks.1.1) (omega arith) (omega arith) refl
transition-Moves _ _ v h t = cc

-- An event outside the table is refused.
transition_refused :
    (s : FallbackState) (e : FallbackEvent)
    → takes s e ≡ false
    → transition s e ≡ err invalid_transition
unfolding transition
transition_refused (requested p) e t = ground arith
transition_refused (routed c a p) e t = ground arith
transition_refused (allocating c a p) e t = ground arith
transition_refused (fallback_routed o c a b p f rs) e t = ground arith
transition_refused (fallback_allocating o c a b p f rs) e t = ground arith
transition_refused (active c tried u p f) e t = refl
transition_refused (failed tried u p f g rs) e t = refl

transition_fallback_state_lem :
    (s : FallbackState) (e : FallbackEvent)
    → Inv s
    → parse_event e ≡ some e
    → transition_fallback_state s e ≡ transition s e
unfolding transition_fallback_state
transition_fallback_state_lem s e v h = rw (parse_state-Inv s v, h)

-- From a state that the schema accepts, a well-formed event of the table leads to such a state,
-- further on, under the same policy, with the allocations that it starts counted; any other is
-- refused as an invalid transition. No event meets a schema error.
pub transition_total :
    (s : FallbackState) (e : FallbackEvent)
    → Inv s
    → parse_event e ≡ some e
    → (takes s e ≡ true → Moves s e (transition_fallback_state s e))
      × (takes s e ≡ false → transition_fallback_state s e ≡ err invalid_transition)
transition_total s e v h =
    rw (transition_fallback_state_lem s e v h) (transition-Moves s e v h, transition_refused s e)

abbrev pub is_fallback : FallbackState → Bool
is_fallback (fallback_routed o c a b p f rs) = true
is_fallback _ = false

-- When the schema's policy allows a fallback, and to another runtime.
pub record MayFallBack (p : FallbackPolicy) (c : CandidateIdentity) (f : FailureClass)
    (d : CandidateIdentity) : Type 0 where
  pub eligible : is_fallback_eligible f ≡ true
  pub allowed : p.allowed ≡ true
  pub other_candidate : d.candidate_id ≢ c.candidate_id
  pub other_runtime : d.runtime_class ≢ c.runtime_class

can_fall_back-MayFallBack :
    (p : FallbackPolicy) (f : FailureClass) (c d : CandidateIdentity)
    → is_policy p ≡ true
    → (can_fall_back p f c (some d) ≡ true) ↔ MayFallBack p c f d
unfolding classify_fallback_failure
can_fall_back-MayFallBack p f c d q = (
  λ h. record {
    eligible = ground arith;
    allowed = ground arith;
    other_candidate = λ e. ground (arith, (==-iff d.candidate_id c.candidate_id).1 e);
    other_runtime = λ e. ground (arith, (==-iff d.runtime_class c.runtime_class).1 e);
  },
  λ m. ground (
    arith,
    ==-iff d.candidate_id c.candidate_id,
    ==-iff d.runtime_class c.runtime_class,
    m.other_candidate,
    m.other_runtime,
  ),
)

is_fallback-after_failure :
    (c a d : CandidateIdentity) (p : FallbackPolicy) (f : FailureClass)
    → is_fallback (after_failure c a p f (some d)) ≡ can_fall_back p f c (some d)
unfolding after_failure
is_fallback-after_failure c a d p f = ground arith

transition-after_failure :
    (c a d : CandidateIdentity) (p : FallbackPolicy) (f : FailureClass)
    → Inv (allocating c a p)
    → parse_event (allocation_failed f (some d)) ≡ some (allocation_failed f (some d))
    → transition_fallback_state (allocating c a p) (allocation_failed f (some d))
      ≡ ok (after_failure c a p f (some d))
unfolding transition
transition-after_failure c a d p f v h =
    transition_fallback_state_lem _ _ v h
    ∙ stored-Inv _ (after_failure-Move c a p f (some d) v h).stays_valid

-- A failed primary allocation moves on to another candidate exactly when its failure is
-- eligible, the policy allows it, and the candidate differs in identifier and in runtime.
pub fallback_iff :
    (c a d : CandidateIdentity) (p : FallbackPolicy) (f : FailureClass) (u : FallbackState)
    → Inv (allocating c a p)
    → parse_event (allocation_failed f (some d)) ≡ some (allocation_failed f (some d))
    → transition_fallback_state (allocating c a p) (allocation_failed f (some d)) ≡ ok u
    → (is_fallback u ≡ true) ↔ MayFallBack p c f d
fallback_iff c a d p f u v h t =
    let e : after_failure c a p f (some d) ≡ u = cc (transition-after_failure c a d p f v h) in
    let q = (shape-allocating c a p v.shape).2 in
    rw (← e, is_fallback-after_failure c a d p f) (can_fall_back-MayFallBack p f c d q)
