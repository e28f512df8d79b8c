-- ===== src/Router/Fallback/Invariant.antt =====
-- router/src/fallback.ts: the states that the schema accepts.
use surfgate.Common.{
  ==-iff, ◌≤◌, ◌≡◌, refl, true, Option, none, some, List, [], ◌∷◌, ◌==◌, ok, arith, AllTrue,
  AllTrue-passes, all_distinct, includes, length,
}
use surfgate.Contracts.Text.{Text, text_eq}
use surfgate.Router.Identity.{CandidateIdentity, parse_identity}
use surfgate.Router.Reason.{
  ReasonCode, reason_eq, ReasonCode-discrete, no_compatible_runtime, fallback_eligible,
  fallback_not_eligible, fallback_from_runtime, fallback_limit_reached,
}
use surfgate.Router.Fallback.Classify.{FailureClass, classify_fallback_failure}
use surfgate.Router.Fallback.State.{
  FallbackPolicy, is_policy, FallbackState, routed, allocating, fallback_routed,
  fallback_allocating, active, failed, same_id, same_runtime, parse_state, parse_shape,
  parse_identities, state_checks, history_checks,
}
use surfgate.Router.Fallback.Transition.{stored, can_fall_back, refusal_reasons}

-- A state, and an event, that its schema leaves as it is.
pub record Inv (s : FallbackState) : Type 0 where
  pub shape : parse_shape s ≡ some s
  pub checks : AllTrue (state_checks s)

pub parse_state-Inv : (s : FallbackState) → Inv s → parse_state s ≡ some s
unfolding parse_state
parse_state-Inv s v = rw (v.shape, AllTrue-passes (state_checks s) v.checks)

pub stored-Inv : (s : FallbackState) → Inv s → stored s ≡ ok s
unfolding stored
stored-Inv s v = rw (parse_state-Inv s v)

id_eq_refl : (t : Text) → (t == t) ≡ true
id_eq_refl t = (==-iff t t).1 refl

same_runtime_comm : (c d : CandidateIdentity) → same_runtime c d ≡ same_runtime d c
same_runtime_comm c d =
    ground (arith, ==-iff c.runtime_class d.runtime_class, ==-iff d.runtime_class c.runtime_class)

-- What the shapes of the states say of their parts.
pub shape-routed :
    (c a : CandidateIdentity) (p : FallbackPolicy)
    → parse_shape (routed c a p) ≡ some (routed c a p)
    → parse_shape (allocating c a p) ≡ some (allocating c a p)
unfolding parse_shape
shape-routed c a p h = ground arith

pub shape-allocating :
    (c a : CandidateIdentity) (p : FallbackPolicy)
    → parse_shape (allocating c a p) ≡ some (allocating c a p)
    → (parse_identity c ≡ some c) × (parse_identity a ≡ some a) × (is_policy p ≡ true)
unfolding parse_shape
shape-allocating c a p h = ground arith

pub shape-fallback_routed :
    (o c a b : CandidateIdentity) (p : FallbackPolicy) (f : FailureClass) (rs : List ReasonCode)
    → parse_shape (fallback_routed o c a b p f rs) ≡ some (fallback_routed o c a b p f rs)
    → parse_shape (fallback_allocating o c a b p f rs) ≡ some (fallback_allocating o c a b p f rs)
unfolding parse_shape
shape-fallback_routed o c a b p f rs h = ground arith

pub shape-fallback_allocating :
    (o c a b : CandidateIdentity) (p : FallbackPolicy) (f : FailureClass) (rs : List ReasonCode)
    → parse_shape (fallback_allocating o c a b p f rs) ≡ some (fallback_allocating o c a b p f rs)
    → (parse_identity c ≡ some c)
      × (parse_identity a ≡ some a)
      × (parse_identity b ≡ some b)
      × (is_policy p ≡ true)
unfolding parse_shape
shape-fallback_allocating o c a b p f rs h = ground arith

refusal_reasons_distinct :
    (p : FallbackPolicy) (f : FailureClass) (d : Option CandidateIdentity)
    → (all_distinct (refusal_reasons p f d) ≡ true) × (1 ≤ length (refusal_reasons p f d))
unfolding refusal_reasons classify_fallback_failure all_distinct includes ReasonCode-discrete
refusal_reasons_distinct p f d = ground arith

module _ (p : FallbackPolicy) (policy : is_policy p ≡ true) where
  pub routed-Inv : (c : CandidateIdentity) → parse_identity c ≡ some c → Inv (routed c c p)
  unfolding parse_shape all_distinct includes
  routed-Inv c i = record {
    shape = ground arith;
    checks = ground (arith, id_eq_refl c.candidate_id);
  }

  pub no_route-Inv :
      (f : FailureClass)
      → Inv (failed [] 0 p none f (fallback_not_eligible ∷ no_compatible_runtime ∷ []))
  unfolding parse_shape parse_identities all_distinct includes ReasonCode-discrete
  no_route-Inv f = record { shape = ground arith; checks = ground arith }

  pub first_active-Inv :
      (c a : CandidateIdentity)
      → parse_identity c ≡ some c
      → parse_identity a ≡ some a
      → same_id c a ≡ true
      → Inv (active c (a ∷ []) 0 p none)
  unfolding parse_shape parse_identities all_distinct includes
  first_active-Inv c a i j e = record { shape = ground arith; checks = ground arith }

  pub first_failed-Inv :
      (a : CandidateIdentity) (f : FailureClass) (d : Option CandidateIdentity)
      → parse_identity a ≡ some a
      → Inv (failed (a ∷ []) 0 p none f (refusal_reasons p f d))
  unfolding parse_shape parse_identities all_distinct includes
  first_failed-Inv a f d i = record {
    shape = ground (arith, refusal_reasons_distinct p f d);
    checks = ground arith;
  }

  pub fallback_routed-Inv :
      (c d : CandidateIdentity) (f : FailureClass)
      → parse_identity c ≡ some c
      → parse_identity d ≡ some d
      → can_fall_back p f c (some d) ≡ true
      → Inv (fallback_routed c d c d p f (fallback_eligible ∷ fallback_from_runtime ∷ []))
  unfolding parse_shape all_distinct includes classify_fallback_failure ReasonCode-discrete
  fallback_routed-Inv c d f i j e = record {
    shape = ground arith;
    checks =
        ground (arith, id_eq_refl c.candidate_id, id_eq_refl d.candidate_id, same_runtime_comm c d);
  }

  pub second_active-Inv :
      (c a b : CandidateIdentity) (f : FailureClass)
      → parse_identity c ≡ some c
      → parse_identity a ≡ some a
      → parse_identity b ≡ some b
      → same_id c b ≡ true
      → AllTrue (history_checks (a ∷ b ∷ []) 1 p (some f))
      → Inv (active c (a ∷ b ∷ []) 1 p (some f))
  unfolding parse_shape parse_identities
  second_active-Inv c a b f i j k e h = record {
    shape = ground arith;
    checks = (refl, (e, (refl, h)));
  }

  pub second_failed-Inv :
      (a b : CandidateIdentity) (f g : FailureClass)
      → parse_identity a ≡ some a
      → parse_identity b ≡ some b
      → AllTrue (history_checks (a ∷ b ∷ []) 1 p (some f))
      → Inv
          (failed (a ∷ b ∷ []) 1 p (some f) g (fallback_not_eligible ∷ fallback_limit_reached ∷ []))
  unfolding parse_shape parse_identities all_distinct includes ReasonCode-discrete
  second_failed-Inv a b f g i j h = record { shape = ground arith; checks = (refl, (refl, h)) }
