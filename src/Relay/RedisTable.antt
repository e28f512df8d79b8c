-- ===== src/Relay/RedisTable.antt =====
-- relay/src/redis-coordinator.ts: a table that behaves as Redis does.
use surfgate.Common.{
  ℕ, ◌+◌, ◌≡◌, ◌≢◌, ◌⊎◌, sym, subst, ◌&&◌, leb, refl, ap, inl, inr, Bool, true, false, ◌==◌, ==-iff,
  Option, none, some, arith, ltb, if◌then◌else◌, Bool-cases,
}
use surfgate.Common.Maybe.{some_inj}
use surfgate.Contracts.Text.{Text, text_eq}
use surfgate.Relay.Redis.{Redis, RedisLaws}

-- A value and its deadline under each key.
abbrev pub Table : Type 0
Table = Text → Option (Text × ℕ)

abbrev live : ℕ → Option (Text × ℕ) → Option Text
live now none = none
live now (some (v, deadline)) = if ltb deadline now then none else some v

abbrev pub put : Table → Text → Option (Text × ℕ) → Table
put s k e j = if j == k then e else s j

-- The answer of a command with a lifetime, if Redis takes it.
abbrev lifetime_ok : ℕ → ℕ → Bool
lifetime_ok now ttl = leb 1 ttl && ltb (now + ttl) 9223372036854775808

abbrev set_if : Table → ℕ → Text → Text → ℕ → Bool → Option Text → Option (Bool × Table)
set_if s now k v ttl false found = none
set_if s now k v ttl true none = some (true, put s k (some (v, now + ttl)))
set_if s now k v ttl true (some w) = some (false, s)

abbrev expire_if : Table → ℕ → Text → ℕ → Option Text → Option (ℕ × Table)
expire_if s now k ttl none = some (0, s)
expire_if s now k ttl (some w) = some (1, put s k (some (w, now + ttl)))

abbrev pub table : Redis Table
table = record {
  get = λ s now k. live now (s k);
  set_nx_px = λ s now k v ttl. set_if s now k v ttl (lifetime_ok now ttl) (live now (s k));
  pexpire = λ s now k ttl. expire_if s now k ttl (live now (s k));
  del = λ s now k. (0, put s k none);
}

same : (k : Text) → (k == k) ≡ true
same k = (==-iff k k).1 refl

apart : (j k : Text) → j ≢ k → (j == k) ≡ false
apart j k n = elim (Bool-cases (j == k)) [ inl e ↦ absurd (n ((==-iff j k).0 e)) | inr e ↦ e ]

abbrev answer : Bool → Table → Option (Bool × Table)
answer b s = some (b, s)

answer_parts : (b c : Bool) (s t : Table) → answer b s ≡ answer c t → (c ≡ b) × (s ≡ t)
answer_parts b c s t h = (sym (ap (λ r. r.0) (some_inj h)), ap (λ r. r.1) (some_inj h))

-- What a table that has been set is.
set_table :
    (s s1 : Table) (b : Bool) (now ttl : ℕ) (k v : Text) (ok : Bool) (found : Option Text)
    → set_if s now k v ttl ok found ≡ some (b, s1)
    → ((b ≡ true) × (put s k (some (v, now + ttl)) ≡ s1)) ⊎ ((b ≡ false) × (s ≡ s1))
set_table s s1 b now ttl k v false found h = cc
set_table s s1 b now ttl k v true none h =
    inl (answer_parts true b (put s k (some (v, now + ttl))) s1 h)
set_table s s1 b now ttl k v true (some w) h = inr (answer_parts false b s s1 h)

was_put :
    (s s1 : Table) (now ttl : ℕ) (k v : Text)
    → table.set_nx_px s now k v ttl ≡ some (true, s1)
    → put s k (some (v, now + ttl)) ≡ s1
was_put s s1 now ttl k v h =
    elim (set_table s s1 true now ttl k v (lifetime_ok now ttl) (live now (s k)) h) [
      | inl e ↦ e.1
      | inr e ↦ absurd (cc e.0)
    ]

taken :
    (s : Table) (now ttl : ℕ) (k v w : Text) (ok : Bool)
    → (set_if s now k v ttl ok (some w) ≡ none)
      ⊎ (set_if s now k v ttl ok (some w) ≡ some (false, s))
taken s now ttl k v w false = inl refl
taken s now ttl k v w true = inr refl

set_apart :
    (s s1 : Table) (b : Bool) (now ttl later : ℕ) (k v j : Text)
    → (j == k) ≡ false
    → table.set_nx_px s now k v ttl ≡ some (b, s1)
    → live later (s1 j) ≡ live later (s j)
set_apart s s1 b now ttl later k v j n h =
    elim (set_table s s1 b now ttl k v (lifetime_ok now ttl) (live now (s k)) h) [
      | inl e ↦ subst (λ x. live later (x j) ≡ live later (s j)) e.1 (rw n refl)
      | inr e ↦ subst (λ x. live later (x j) ≡ live later (s j)) e.1 refl
    ]

expire_apart :
    (s s1 : Table) (n now ttl later : ℕ) (k j : Text)
    → (j == k) ≡ false
    → (o : Option Text) → expire_if s now k ttl o ≡ some (n, s1)
    → live later (s1 j) ≡ live later (s j)
expire_apart s s1 n now ttl later k j m none h =
    subst (λ x. live later (x j) ≡ live later (s j)) (ap (λ r. r.1) (some_inj h)) refl
expire_apart s s1 n now ttl later k j m (some w) h =
    subst (λ x. live later (x j) ≡ live later (s j)) (ap (λ r. r.1) (some_inj h)) (rw m refl)

pub table-RedisLaws : RedisLaws table
table-RedisLaws = record {
  set_taken = λ s now ttl k v w e. rw e (taken s now ttl k v w (lifetime_ok now ttl));
  set_free = λ s now ttl k v e life.
      let fits : lifetime_ok now ttl ≡ true = ground (arith, life.positive, life.in_range) in
      (put s k (some (v, now + ttl)), rw (e, fits) refl);
  set_lives = λ s s1 now ttl later k v e h l.
      subst (λ x. live later (x k) ≡ some v) (was_put s s1 now ttl k v e)
        (rw (same k) (ground arith));
  set_lapses = λ s s1 now ttl later k v e h.
      subst (λ x. live later (x k) ≡ none) (was_put s s1 now ttl k v e)
        (rw (same k) (ground arith));
  del_absent = λ s now later k h. rw (same k) refl;
  set_other =
      λ s s1 b now ttl later k v j n e. set_apart s s1 b now ttl later k v j (apart j k n) e;
  expire_other = λ s s1 n now ttl later k j m e.
      expire_apart s s1 n now ttl later k j (apart j k m) (live now (s k)) e;
  del_other = λ s now later k j n. rw (apart j k n) refl;
}
