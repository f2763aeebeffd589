-- ===== src/Coordination/Breaker.antt =====
-- utils/redis_coordination.py: the circuit breaker.
pub mod Cycle
use hommey.Prelude.{Bool, false, if◌then◌else◌, leb, ltb, not, true, ℕ, ◌&&◌, ◌+◌, ◌-◌}

pub data BreakerState : Type 0 where
  closed open_circuit half_open : BreakerState

-- What the three keys of a breaker hold; a missing state is closed, a missing number is 0. Only the
-- scripts of the breaker write them, and none of them expires.
pub record Keys : Type 0 where
  pub state : BreakerState
  pub opened_at : ℕ
  pub count : ℕ

pub record Settings : Type 0 where
  pub failure_threshold : ℕ
  pub recovery_timeout_sec : ℕ
  pub half_open_successes : ℕ

-- `_CB_STATE_LUA`, which returns the state that it leaves
unfoldable pub refresh : Settings → ℕ → Keys → Keys
refresh c now k = elim k.state [
  | open_circuit ↦
      if ltb 0 k.opened_at && leb k.opened_at now && leb c.recovery_timeout_sec (now - k.opened_at)
      then record k { state = half_open; count = 0 }
      else k
  | _ ↦ k
]

abbrev pub is_open : BreakerState → Bool
is_open open_circuit = true
is_open _ = false

-- `allow_call`
unfoldable pub allow_call : Settings → ℕ → Keys → Bool × Keys
unfolding refresh
allow_call c now k = (not (is_open (refresh c now k).state), refresh c now k)

-- `_CB_FAILURE_LUA`
unfoldable pub record_failure : Settings → ℕ → Keys → Keys
record_failure c now k = elim k.state [
  | open_circuit ↦ k
  | half_open ↦ record k { state = open_circuit; opened_at = now }
  | closed ↦
      if leb c.failure_threshold (k.count + 1)
      then record { state = open_circuit; opened_at = now; count = k.count + 1 }
      else record k { count = k.count + 1 }
]

-- `_CB_SUCCESS_LUA`
unfoldable pub record_success : Settings → Keys → Keys
record_success c k = elim k.state [
  | half_open ↦
      if leb c.half_open_successes (k.count + 1)
      then record k { state = closed; count = 0 }
      else record k { count = k.count + 1 }
  | _ ↦ record k { count = 0 }
]
