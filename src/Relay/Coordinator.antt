-- ===== src/Relay/Coordinator.antt =====
-- relay/src/redis-coordinator.ts: `createRelayCoordinator`, over Redis.
use surfgate.Common.{
  ℕ, ◌^◌, ◌*◌, Bool, ◌==◌, Option, none, some, leb, nat_eq, Result, ok, err, guard, is_some, ◌>>◌,
  ◌∷◌, ◌++◌, if◌then◌else◌,
}
use surfgate.Contracts.Text.{Text, text_eq, codes}
use surfgate.Contracts.Ids.{is_tenant_id, is_session_id}
use surfgate.Relay.Redis.{Redis}

-- `Math.min`
abbrev smaller : ℕ → ℕ → ℕ
smaller a b = if leb a b then a else b

abbrev pub max_reconnect_attempts : ℕ
max_reconnect_attempts = 5

-- `relayRedisReconnectDelay`; no delay is an `Error`, which ends the attempts.
unfoldable pub relay_redis_reconnect_delay : ℕ → Option ℕ
relay_redis_reconnect_delay retries =
    if leb max_reconnect_attempts retries then none else some (smaller (100 * 2 ^ retries) 1000)

unfoldable pub controller_key : Text → Text → Text
controller_key tenant session = codes "surfgate:relay:controller:" ++ tenant ++ b':' ∷ session

unfoldable pub revoked_key : Text → Text → Text
revoked_key tenant session = codes "surfgate:relay:revoked:" ++ tenant ++ b':' ∷ session

-- The `ZodError` of an identifier, or an error that Redis answers. A connection that fails, or a
-- command that runs into its time limit, throws before anything is answered.
pub data CoordinatorError : Type 0 where
  invalid_identifier redis_error : CoordinatorError

-- The answer of a command that is awaited.
abbrev pub answered : {A : Type 0} → Option A → Result CoordinatorError A
answered none = err redis_error
answered (some a) = ok a

pub record LeaseInput : Type 0 where
  pub tenant_id : Text
  pub session_id : Text
  pub owner_id : Text
  pub ttl_ms : ℕ

abbrev pub valid_ids : Text → Text → Result CoordinatorError (Unit {0})
valid_ids tenant session = do
  guard (is_tenant_id tenant) invalid_identifier
  guard (is_session_id session) invalid_identifier

-- `=== 1`, on the integer that a script answers.
abbrev pub renewed : {S : Type 0} → Option (ℕ × S) → Option (Bool × S)
renewed none = none
renewed (some r) = some (nat_eq r.0 1, r.1)

module _ {S : Type 0} (redis : Redis S) where
  -- `if redis.call('GET', KEYS[1]) == ARGV[1] then return redis.call('PEXPIRE', …) end return 0`
  unfoldable pub renew_script : S → ℕ → Text → Text → ℕ → Option (ℕ × S)
  renew_script s now key owner ttl = elim (redis.get s now key) [
    | none ↦ some (0, s)
    | some held ↦ if held == owner then redis.pexpire s now key ttl else some (0, s)
  ]

  -- `if redis.call('GET', KEYS[1]) == ARGV[1] then return redis.call('DEL', KEYS[1]) end return 0`
  unfoldable pub release_script : S → ℕ → Text → Text → ℕ × S
  release_script s now key owner = elim (redis.get s now key) [
    | none ↦ (0, s)
    | some held ↦ if held == owner then redis.del s now key else (0, s)
  ]

  unfoldable pub is_session_revoked : Text → Text → S → ℕ → Result CoordinatorError Bool
  unfolding revoked_key
  is_session_revoked tenant session s now = do
    valid_ids tenant session
    ok (is_some (redis.get s now (revoked_key tenant session)))

  unfoldable pub acquire_controller : LeaseInput → S → ℕ → Result CoordinatorError (Bool × S)
  unfolding controller_key
  acquire_controller i s now = do
    valid_ids i.tenant_id i.session_id
    answered (redis.set_nx_px s now (controller_key i.tenant_id i.session_id) i.owner_id i.ttl_ms)

  unfoldable pub renew_controller : LeaseInput → S → ℕ → Result CoordinatorError (Bool × S)
  unfolding controller_key renew_script
  renew_controller i s now = do
    valid_ids i.tenant_id i.session_id
    answered
        (renewed (renew_script s now (controller_key i.tenant_id i.session_id) i.owner_id i.ttl_ms))

  -- The lifetime of the input is not read.
  unfoldable pub release_controller : LeaseInput → S → ℕ → Result CoordinatorError S
  unfolding controller_key release_script
  release_controller i s now = do
    valid_ids i.tenant_id i.session_id
    ok (release_script s now (controller_key i.tenant_id i.session_id) i.owner_id).1
