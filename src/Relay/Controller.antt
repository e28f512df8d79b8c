-- ===== src/Relay/Controller.antt =====
-- relay/src/redis-coordinator.ts: the lease of a session's controller.
use surfgate.Common.{
  ℕ, ◌+◌, ◌≤◌, ◌<◌, ◌≡◌, refl, sym, subst, ◌∙◌, ap, true, ==-iff, Option, none, some, List, Result,
  ok, err, arith, ◌>>◌,
}
use surfgate.Contracts.Text.{Text, text_eq}
use surfgate.Relay.Redis.{Redis, RedisLaws, IsLifetime}
use surfgate.Relay.Coordinator.{
  LeaseInput, CoordinatorError, valid_ids, answered, release_script, acquire_controller,
  release_controller,
}
use surfgate.Relay.Attempts.{
  key_of, Attempt, run_attempts, HeldBy, FromOthers, Refused, attempts_kept,
}

module _ {S : Type 0} (redis : Redis S) (laws : RedisLaws redis) where
  passed :
      {A : Type 0} (c : Result CoordinatorError (Unit {0})) (r q : A) → (c >> ok r) ≡ ok q → r ≡ q
  passed (ok u) r q h = ground arith
  passed (err e) r q h = cc

  -- A call that answers has valid identifiers and the answer of Redis.
  granted_by :
      {A : Type 0} (c : Result CoordinatorError (Unit {0})) (o : Option A) (q : A)
      → (c >> answered o) ≡ ok q
      → (c ≡ ok tt) × (o ≡ some q)
  granted_by (ok u) (some r) q h = (refl, ground arith)
  granted_by (ok u) none q h = cc
  granted_by (err e) o q h = cc

  granted :
      (j : LeaseInput) (s : S) (t : ℕ)
      → valid_ids j.tenant_id j.session_id ≡ ok tt
      → redis.get s t (key_of j) ≡ none
      → IsLifetime t j.ttl_ms
      → (s2 : S) × (acquire_controller redis j s t ≡ ok (true, s2))
  unfolding acquire_controller
  granted j s t valid free life =
      let (s2, put) = laws.set_free s t j.ttl_ms (key_of j) j.owner_id free life in
      (
        s2,
        ap (λ c. c >> answered (redis.set_nx_px s t (key_of j) j.owner_id j.ttl_ms)) valid
            ∙ ap answered put,
      )

  was_set :
      (i : LeaseInput) (s s1 : S) (now : ℕ)
      → acquire_controller redis i s now ≡ ok (true, s1)
      → (valid_ids i.tenant_id i.session_id ≡ ok tt)
        × (redis.set_nx_px s now (key_of i) i.owner_id i.ttl_ms ≡ some (true, s1))
  unfolding acquire_controller
  was_set i s s1 now e = granted_by (valid_ids i.tenant_id i.session_id) _ _ e

  acquired :
      (i : LeaseInput) (s s1 : S) (now : ℕ)
      → acquire_controller redis i s now ≡ ok (true, s1)
      → HeldBy redis s1 (key_of i) i.owner_id now (now + i.ttl_ms)
  acquired i s s1 now e later h l =
      laws.set_lives s s1 now i.ttl_ms later (key_of i) i.owner_id (was_set i s s1 now e).1 h l

  -- Once an owner has got the control of a session, all that others attempt before its lease ends,
  -- on whatever session, leaves it the control: no attempt on its session is answered `true`.
  pub controller_exclusive :
      (i : LeaseInput) (s s1 : S) (now last : ℕ) (calls : List (ℕ × Attempt))
      → acquire_controller redis i s now ≡ ok (true, s1)
      → FromOthers redis i.owner_id now (now + i.ttl_ms) calls
      → now ≤ last
      → last < now + i.ttl_ms
      → Refused redis (key_of i) s1 calls
        × (redis.get (run_attempts redis s1 calls) last (key_of i) ≡ some i.owner_id)
  controller_exclusive i s s1 now last calls e others h l =
      let held = acquired i s s1 now e in
      let (refused, kept) =
        attempts_kept redis laws (key_of i) i.owner_id now (now + i.ttl_ms) s1 calls held others in
      (refused, kept last ∙ held last h l)

  -- Whatever others have attempted while a lease ran, once it has lapsed without a renewal the next
  -- who asks for the control of the session, with a lifetime that Redis takes, gets it.
  pub controller_lapses :
      (i j : LeaseInput) (s s1 : S) (now later : ℕ) (calls : List (ℕ × Attempt))
      → j.tenant_id ≡ i.tenant_id
      → j.session_id ≡ i.session_id
      → acquire_controller redis i s now ≡ ok (true, s1)
      → FromOthers redis i.owner_id now (now + i.ttl_ms) calls
      → now + i.ttl_ms < later
      → IsLifetime later j.ttl_ms
      → (s2 : S) × (acquire_controller redis j (run_attempts redis s1 calls) later ≡ ok (true, s2))
  controller_lapses i j s s1 now later calls tenant session e others late life =
      let (valid, put) = was_set i s s1 now e in
      let (refused, kept) =
        attempts_kept redis laws (key_of i) i.owner_id now (now + i.ttl_ms) s1 calls
          (acquired i s s1 now e) others in
      let gone : redis.get (run_attempts redis s1 calls) later (key_of i) ≡ none =
        kept later ∙ laws.set_lapses s s1 now i.ttl_ms later (key_of i) i.owner_id put late in
      let same : key_of j ≡ key_of i = rw (tenant, session) refl in
      granted j (run_attempts redis s1 calls) later (rw (tenant, session) valid)
        (subst (λ k. redis.get (run_attempts redis s1 calls) later k ≡ none) (sym same) gone) life

  deleted :
      (s : S) (t : ℕ) (k v : Text)
      → redis.get s t k ≡ some v
      → release_script redis s t k v ≡ redis.del s t k
  unfolding release_script
  deleted s t k v h = rw (release_script, h, (==-iff v v).1 refl) refl

  -- Whatever others have attempted before, once the owner has released a lease that runs, the next
  -- who asks for the control of the session, with a lifetime that Redis takes, gets it.
  pub controller_released :
      (i j : LeaseInput) (s s1 s2 : S) (now end later : ℕ) (calls : List (ℕ × Attempt))
      → j.tenant_id ≡ i.tenant_id
      → j.session_id ≡ i.session_id
      → acquire_controller redis i s now ≡ ok (true, s1)
      → FromOthers redis i.owner_id now end calls
      → now ≤ end
      → end < now + i.ttl_ms
      → end ≤ later
      → release_controller redis i (run_attempts redis s1 calls) end ≡ ok s2
      → IsLifetime later j.ttl_ms
      → (s3 : S) × (acquire_controller redis j s2 later ≡ ok (true, s3))
  unfolding release_controller
  controller_released i j s s1 s2 now end later calls tenant session e others h l late r life =
      let lease = acquired i s s1 now e in
      let (refused, kept) =
        attempts_kept redis laws (key_of i) i.owner_id now end s1 calls
          (λ m g f. lease m g (omega (arith, f, l))) others in
      let mid = run_attempts redis s1 calls in
      let held : redis.get mid end (key_of i) ≡ some i.owner_id = kept end ∙ lease end h l in
      let done = passed (valid_ids i.tenant_id i.session_id) _ _ r in
      let (valid, put) = was_set i s s1 now e in
      let same : key_of j ≡ key_of i = rw (tenant, session) refl in
      granted j s2 later (rw (tenant, session) valid)
        (subst (λ k. redis.get s2 later k ≡ none) (sym same)
          (subst (λ x. redis.get x later (key_of i) ≡ none)
            (ap (λ x. x.1) (sym (deleted mid end (key_of i) i.owner_id held)) ∙ done)
            (laws.del_absent mid end later (key_of i) late)))
        life
