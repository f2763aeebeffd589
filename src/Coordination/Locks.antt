-- ===== src/Coordination/Locks.antt =====
-- utils/redis_coordination.py: the distributed lock, and the activity lock of a user's sessions.
pub mod Exclusion
pub mod Sessions
mod Tests
use hommey.Coordination.Redis.{Redis}
use hommey.Prelude.{
  Bool, Option, String, false, if◌then◌else◌, is_none, is_some, ltb, none, not, some, true, ℕ, ◌+◌,
  ◌==◌, String_eq, ℕ_eq,
}

-- A lock of one worker: its key, its token and its time to live.
pub record Lock : Type 0 where
  pub key : String
  pub token : String
  pub ttl_ms : ℕ

-- A `SessionActivityLock`: without a session its key is the history key, and it excludes all.
pub record ActivityLock : Type 0 where
  pub key : String
  pub history_key : String
  pub activity_key : String
  pub token : String
  pub ttl_ms : ℕ
  pub exclusive : Bool

-- `__init__`, over the keys that it builds from the user and the session
abbrev pub activity_lock :
    String → (String → String) → String → Option String → String → ℕ → ActivityLock
activity_lock history_key session_key activity_key session token ttl_ms = record {
  key = (elim session [ none ↦ history_key | some id ↦ session_key id ]);
  history_key = history_key;
  activity_key = activity_key;
  token = token;
  ttl_ms = ttl_ms;
  exclusive = is_none session;
}

abbrev pub is_token : Option String → String → Bool
is_token none token = false
is_token (some v) token = v == token

module _ (R : Redis) where
  -- redis.call('GET', KEYS[1]) == ARGV[1]
  abbrev pub holds : String → String → R.State → Bool
  holds key token s = is_token (R.get key s) token

  -- `_ACQUIRE_LUA`: SET NX PX
  unfoldable pub acquire : Lock → R.State → Bool × R.State
  acquire l s =
      if is_none (R.get l.key s) then (true, R.set_px l.key l.token l.ttl_ms s) else (false, s)

  -- `_RENEW_LUA`
  unfoldable pub renew : Lock → R.State → Bool × R.State
  renew l s = if holds l.key l.token s then (true, R.pexpire l.key l.ttl_ms s) else (false, s)

  -- `_RELEASE_LUA`
  unfoldable pub release : Lock → R.State → Bool × R.State
  release l s = if holds l.key l.token s then (true, R.del l.key s) else (false, s)

  -- The PTTL test of the scripts: the activity key lives as long as its newest member.
  unfoldable pub extend : ActivityLock → R.State → R.State
  extend l s =
      if ltb (R.pttl l.activity_key s) l.ttl_ms then R.pexpire l.activity_key l.ttl_ms s else s

  -- The member of the activity key, with the time when its lease ends.
  abbrev pub lease : ActivityLock → ℕ → R.State → R.State
  lease l now s = R.zadd l.activity_key (now + l.ttl_ms) l.token s

  -- `_ACTIVITY_ACQUIRE_LUA`
  unfoldable pub acquire_activity : ActivityLock → R.State → Bool × R.State
  unfolding extend
  acquire_activity l s =
      let purged = R.zremrangebyscore l.activity_key (R.time s) s in
      let taken = R.set_px l.key l.token l.ttl_ms purged in
      if (if l.exclusive
        then ltb 0 (R.zcard l.activity_key purged)
        else is_some (R.get l.history_key purged))
      then (false, purged)
      else if is_some (R.get l.key purged)
      then (false, purged)
      else if l.exclusive
      then (true, taken)
      else (true, extend l (lease l (R.time s) taken))

  -- `_ACTIVITY_RENEW_LUA`
  unfoldable pub renew_activity : ActivityLock → R.State → Bool × R.State
  unfolding extend
  renew_activity l s =
      let kept = R.pexpire l.key l.ttl_ms s in
      if not (holds l.key l.token s)
      then (false, s)
      else if l.exclusive
      then (true, kept)
      else (true, extend l (lease l (R.time s) kept))

  -- `_ACTIVITY_RELEASE_LUA`
  unfoldable pub release_activity : ActivityLock → R.State → Bool × R.State
  release_activity l s =
      let left = R.zrem l.activity_key l.token s in
      if holds l.key l.token left then (true, R.del l.key left) else (false, left)
