-- ===== src/Relay/Redis.antt =====
-- relay/src/redis-coordinator.ts: the commands of Redis that the coordinator calls.
use surfgate.Common.{ℕ, ◌+◌, ◌≤◌, ◌<◌, ◌≡◌, ◌≢◌, ◌⊎◌, Bool, true, false, Option, none, some}
use surfgate.Contracts.Text.{Text}

-- A server with states `S`; every command is given the server's clock. A command that takes a
-- lifetime may answer an error, `none`, and then nothing has changed.
pub record Redis (S : Type 0) : Type 0 where
  -- `GET`
  pub get : S → ℕ → Text → Option Text
  -- `SET key value NX PX ttl`: whether the answer is `OK`
  pub set_nx_px : S → ℕ → Text → Text → ℕ → Option (Bool × S)
  -- `PEXPIRE key ttl`: the integer that it answers
  pub pexpire : S → ℕ → Text → ℕ → Option (ℕ × S)
  -- `DEL key`
  pub del : S → ℕ → Text → ℕ × S

-- The lifetimes that `PX` takes: a positive number whose deadline is an integer of 64 bits.
pub record IsLifetime (now ttl : ℕ) : Type 0 where
  pub positive : 1 ≤ ttl
  pub in_range : now + ttl < 9223372036854775808

-- What the documentation of the commands says.
pub record RedisLaws {S : Type 0} (r : Redis S) : Type 0 where
  -- `NX` sets no key that is there.
  pub set_taken :
      (s : S) (now ttl : ℕ) (k v w : Text)
      → r.get s now k ≡ some w
      → (r.set_nx_px s now k v ttl ≡ none) ⊎ (r.set_nx_px s now k v ttl ≡ some (false, s))
  pub set_free :
      (s : S) (now ttl : ℕ) (k v : Text)
      → r.get s now k ≡ none
      → IsLifetime now ttl
      → (s1 : S) × (r.set_nx_px s now k v ttl ≡ some (true, s1))
  -- A key that has been set is there for its lifetime and gone after it.
  pub set_lives :
      (s s1 : S) (now ttl later : ℕ) (k v : Text)
      → r.set_nx_px s now k v ttl ≡ some (true, s1)
      → now ≤ later
      → later < now + ttl
      → r.get s1 later k ≡ some v
  pub set_lapses :
      (s s1 : S) (now ttl later : ℕ) (k v : Text)
      → r.set_nx_px s now k v ttl ≡ some (true, s1)
      → now + ttl < later
      → r.get s1 later k ≡ none
  pub del_absent :
      (s : S) (now later : ℕ) (k : Text) → now ≤ later → r.get (r.del s now k).1 later k ≡ none
  -- A command leaves the other keys alone.
  pub set_other :
      (s s1 : S) (b : Bool) (now ttl later : ℕ) (k v j : Text)
      → j ≢ k
      → r.set_nx_px s now k v ttl ≡ some (b, s1)
      → r.get s1 later j ≡ r.get s later j
  pub expire_other :
      (s s1 : S) (n now ttl later : ℕ) (k j : Text)
      → j ≢ k
      → r.pexpire s now k ttl ≡ some (n, s1)
      → r.get s1 later j ≡ r.get s later j
  pub del_other :
      (s : S) (now later : ℕ) (k j : Text)
      → j ≢ k
      → r.get (r.del s now k).1 later j ≡ r.get s later j
