-- ===== src/Relay/Attempts.antt =====
-- relay/src/redis-coordinator.ts: the calls that others make while a controller's lease runs.
use surfgate.Common.{
  ℕ, ◌≤◌, ◌<◌, ◌≡◌, ◌≢◌, refl, sym, subst, ◌∙◌, inl, inr, Bool, true, false, ◌==◌, ==-iff, Option,
  none, some, List, [], ◌∷◌, Result, ok, err, arith, Bool-cases, if◌then◌else◌, ◌>>◌, ◌⊎◌,
}
use surfgate.Common.Rows.{if_either}
use surfgate.Contracts.Text.{Text, text_eq}
use surfgate.Relay.Redis.{Redis, RedisLaws}
use surfgate.Relay.Coordinator.{
  LeaseInput, CoordinatorError, valid_ids, answered, controller_key, renew_script, release_script,
  renewed, acquire_controller, renew_controller, release_controller,
}

abbrev pub key_of : LeaseInput → Text
key_of i = controller_key i.tenant_id i.session_id

pub data Attempt : Type 0 where
  acquires renews releases : (i : LeaseInput) → Attempt

abbrev pub input_of : Attempt → LeaseInput
input_of (acquires i) = i
input_of (renews i) = i
input_of (releases i) = i

module _ {S : Type 0} (redis : Redis S) where
  -- What the call has answered, if it has not thrown, and the state after it.
  abbrev pub answer_of : S → Result CoordinatorError (Bool × S) → Option Bool × S
  answer_of s (ok r) = (some r.0, r.1)
  answer_of s (err e) = (none, s)

  abbrev pub state_of : S → Result CoordinatorError S → S
  state_of s (ok r) = r
  state_of s (err e) = s

  -- A release answers nothing.
  unfoldable pub attempt : Attempt → S → ℕ → Option Bool × S
  attempt (acquires i) s t = answer_of s (acquire_controller redis i s t)
  attempt (renews i) s t = answer_of s (renew_controller redis i s t)
  attempt (releases i) s t = (none, state_of s (release_controller redis i s t))

  unfoldable pub run_attempts : S → List (ℕ × Attempt) → S
  unfolding attempt
  run_attempts s [] = s
  run_attempts s ((t, a) ∷ rest) = run_attempts (attempt a s t).1 rest

  -- The owner holds the key from one instant until another.
  abbrev pub HeldBy : S → Text → Text → ℕ → ℕ → Type 0
  HeldBy s k owner from until =
      (later : ℕ) → from ≤ later → later < until → redis.get s later k ≡ some owner

  -- Attempts of others, in order, before the lease ends.
  abbrev pub FromOthers : Text → ℕ → ℕ → List (ℕ × Attempt) → Type 0
  FromOthers owner from until [] = Unit {0}
  FromOthers owner from until ((t, a) ∷ rest) =
      (from ≤ t) × (t < until) × ((input_of a).owner_id ≢ owner) × FromOthers owner t until rest

  -- No attempt on the key is answered `true`.
  abbrev pub Refused : Text → S → List (ℕ × Attempt) → Type 0
  Refused k s [] = Unit {0}
  Refused k s ((t, a) ∷ rest) =
      (key_of (input_of a) ≡ k → (attempt a s t).0 ≢ some true) × Refused k (attempt a s t).1 rest

  -- A call has not answered `true` if it was about the key, and it leaves the key alone.
  record Safe (s : S) (k : Text) (about : Type 0) (r : Option Bool × S) : Type 0 where
    kept : (later : ℕ) → redis.get r.1 later k ≡ redis.get s later k
    refused : about → r.0 ≢ some true

  abbrev said : S → Option (Bool × S) → Option Bool × S
  said s none = (none, s)
  said s (some r) = (some r.0, r.1)

  module _ (laws : RedisLaws redis) (k owner : Text) (t : ℕ) (s : S)
      (held : redis.get s t k ≡ some owner) where
    thrown_Safe : (about : Type 0) → Safe s k about (none, s)
    thrown_Safe about = record { kept = λ later. refl; refused = λ a e. cc }

    refused_Safe : (about : Type 0) → Safe s k about (some false, s)
    refused_Safe about = record { kept = λ later. refl; refused = λ a e. ground (arith, e) }

    checked_Safe :
        (about : Type 0) (c : Result CoordinatorError (Unit {0})) (o : Option (Bool × S))
        → Safe s k about (said s o)
        → Safe s k about (answer_of s (c >> answered o))
    checked_Safe about (ok u) none h = h
    checked_Safe about (ok u) (some r) h = h
    checked_Safe about (err e) o h = thrown_Safe about

    same_key : (j : Text) → (j ≡ k) ⊎ (k ≢ j)
    same_key j = elim (Bool-cases (j == k)) [
      | inl e ↦ inl ((==-iff j k).0 e)
      | inr e ↦ inr (λ h. cc ((==-iff j k).1 (sym h), e))
    ]

    other_Safe :
        (j : Text) (o : Option (Bool × S))
        → k ≢ j
        → ((b : Bool) (s1 : S)
            → o ≡ some (b, s1)
            → (later : ℕ) → redis.get s1 later k ≡ redis.get s later k)
        → Safe s k (j ≡ k) (said s o)
    other_Safe j none n h = thrown_Safe (j ≡ k)
    other_Safe j (some r) n h = record { kept = h r.0 r.1 refl; refused = λ e. absurd (n (sym e)) }

    set_Safe : (j v : Text) (ttl : ℕ) → Safe s k (j ≡ k) (said s (redis.set_nx_px s t j v ttl))
    set_Safe j v ttl = elim (same_key j) [
      | inl e ↦
          subst (λ x. Safe s k (j ≡ k) (said s (redis.set_nx_px s t x v ttl))) (sym e)
            (elim (laws.set_taken s t ttl k v owner held) [
              | inl l ↦ subst (λ o. Safe s k (j ≡ k) (said s o)) (sym l) (thrown_Safe (j ≡ k))
              | inr l ↦ subst (λ o. Safe s k (j ≡ k) (said s o)) (sym l) (refused_Safe (j ≡ k))
            ])
      | inr n ↦
          other_Safe j (redis.set_nx_px s t j v ttl) n
            (λ b s1 e later. laws.set_other s s1 b t ttl later j v k n e)
    ]

    not_same : (v : Text) → v ≢ owner → (owner == v) ≡ false
    not_same v other = elim (Bool-cases (owner == v)) [
      | inl e ↦ absurd (other (sym ((==-iff owner v).0 e)))
      | inr e ↦ e
    ]

    renew_Safe :
        (j v : Text) (ttl : ℕ)
        → v ≢ owner
        → Safe s k (j ≡ k) (said s (renewed (renew_script redis s t j v ttl)))
    unfolding renew_script
    renew_Safe j v ttl other = elim (same_key j) [
      | inl e ↦
          subst (λ x. Safe s k (j ≡ k) (said s (renewed (renew_script redis s t x v ttl)))) (sym e)
            (rw (renew_script, held, not_same v other) (refused_Safe (j ≡ k)))
      | inr n ↦ elsewhere (redis.get s t j) n
    ]
      where
        expired :
            (o : Option (ℕ × S))
            → redis.pexpire s t j ttl ≡ o
            → k ≢ j
            → Safe s k (j ≡ k) (said s (renewed o))
        expired none e n = thrown_Safe (j ≡ k)
        expired (some r) e n = record {
          kept = λ later. laws.expire_other s r.1 r.0 t ttl later j k n e;
          refused = λ l. absurd (n (sym l));
        }

        elsewhere :
            (o : Option Text)
            → k ≢ j
            → Safe s k (j ≡ k) (
                said s (
                  renewed (elim o [
                    | none ↦ some (0, s)
                    | some w ↦ if w == v then redis.pexpire s t j ttl else some (0, s)
                  ])))
        elsewhere none n = refused_Safe (j ≡ k)
        elsewhere (some w) n =
            if_either (λ x. Safe s k (j ≡ k) (said s (renewed x))) (w == v)
              (redis.pexpire s t j ttl) (some (0, s))
              (λ e. expired (redis.pexpire s t j ttl) refl n) (λ e. refused_Safe (j ≡ k))

    release_kept :
        (j v : Text)
        → v ≢ owner
        → (later : ℕ) → redis.get (release_script redis s t j v).1 later k ≡ redis.get s later k
    unfolding release_script
    release_kept j v other later = elim (same_key j) [
      | inl e ↦
          subst (λ x. redis.get (release_script redis s t x v).1 later k ≡ redis.get s later k)
            (sym e) (rw (release_script, held, not_same v other) refl)
      | inr n ↦ elsewhere (redis.get s t j) n
    ]
      where
        elsewhere :
            (o : Option Text)
            → k ≢ j
            → redis.get
                (elim o as (λ x. ℕ × S) [
                  | none ↦ (0, s)
                  | some w ↦ if w == v then redis.del s t j else (0, s)
                ]).1
                later
                k
              ≡ redis.get s later k
        elsewhere none n = refl
        elsewhere (some w) n =
            if_either (λ x. redis.get x.1 later k ≡ redis.get s later k) (w == v) (redis.del s t j)
              (0, s) (λ e. laws.del_other s t later j k n) (λ e. refl)

    attempt-Safe :
        (a : Attempt)
        → (input_of a).owner_id ≢ owner
        → Safe s k (key_of (input_of a) ≡ k) (attempt a s t)
    unfolding attempt acquire_controller renew_controller release_controller
    attempt-Safe (acquires i) n =
        checked_Safe _ (valid_ids i.tenant_id i.session_id) _
          (set_Safe (key_of i) i.owner_id i.ttl_ms)
    attempt-Safe (renews i) n =
        checked_Safe _ (valid_ids i.tenant_id i.session_id) _
          (renew_Safe (key_of i) i.owner_id i.ttl_ms n)
    attempt-Safe (releases i) n = record {
      kept = released (valid_ids i.tenant_id i.session_id);
      refused = λ e f. cc;
    }
      where
        released :
            (c : Result CoordinatorError (Unit {0})) (later : ℕ)
            → redis.get
                (state_of s (c >> ok (release_script redis s t (key_of i) i.owner_id).1))
                later
                k
              ≡ redis.get s later k
        released (ok u) later = release_kept (key_of i) i.owner_id n later
        released (err e) later = refl

  -- All that others attempt while a lease runs leaves its key alone.
  pub attempts_kept :
      RedisLaws redis
      → (k owner : Text) (from until : ℕ) (s : S) (calls : List (ℕ × Attempt))
      → HeldBy s k owner from until
      → FromOthers owner from until calls
      → Refused k s calls
        × ((later : ℕ) → redis.get (run_attempts s calls) later k ≡ redis.get s later k)
  unfolding run_attempts
  attempts_kept laws k owner from until s [] held others = (tt, λ later. refl)
  attempts_kept laws k owner from until s ((t, a) ∷ rest) held others =
      let safe = attempt-Safe laws k owner t s (held t others.0 others.1) a others.2 in
      let (refused, kept) =
        attempts_kept laws k owner t until (attempt a s t).1 rest
          (λ later h l. safe.kept later ∙ held later (omega (arith, h, others.0)) l) others.3 in
      ((safe.refused, refused), λ later. kept later ∙ safe.kept later)
