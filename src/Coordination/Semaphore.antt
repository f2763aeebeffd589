-- ===== src/Coordination/Semaphore.antt =====
-- utils/redis_coordination.py: the lease semaphore.
pub mod Bounds
use hommey.Coordination.Redis.{Redis}
use hommey.Prelude.{Bool, String, false, if◌then◌else◌, is_none, leb, max, true, ℕ, ◌+◌, ◌/◌}

-- The settings of a `RedisSemaphore`: its key, the number of slots and the seconds of a lease.
pub record Semaphore : Type 0 where
  pub key : String
  pub max_concurrency : ℕ
  pub ttl_sec : ℕ

-- `__init__`
abbrev pub semaphore : String → ℕ → ℕ → Semaphore
semaphore key max_concurrency ttl_sec = record {
  key = key;
  max_concurrency = max 1 max_concurrency;
  ttl_sec = max 1 ttl_sec;
}

module _ (R : Redis) where
  -- tonumber(redis.call('TIME')[1])
  abbrev pub seconds : R.State → ℕ
  seconds s = R.time s / 1000

  -- `_SEM_ACQUIRE_LUA`
  unfoldable pub acquire : Semaphore → String → R.State → Bool × R.State
  acquire sem token s =
      let purged = R.zremrangebyscore sem.key (seconds s) s in
      if leb sem.max_concurrency (R.zcard sem.key purged)
      then (false, purged)
      else (true, R.zadd sem.key (seconds s + sem.ttl_sec) token purged)

  -- `_SEM_RENEW_LUA`
  unfoldable pub renew : Semaphore → String → R.State → Bool × R.State
  renew sem token s =
      if is_none (R.zscore sem.key token s)
      then (false, s)
      else (true, R.zadd sem.key (seconds s + sem.ttl_sec) token s)

  -- `_SEM_RELEASE_LUA`
  unfoldable pub release : Semaphore → String → R.State → R.State
  release sem token s = R.zrem sem.key token s
