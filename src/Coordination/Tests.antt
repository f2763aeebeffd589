-- ===== src/Coordination/Tests.antt =====
-- Leases and a breaker of utils/redis_coordination.py at work, and the theorems about them.
use hommey.Coordination.Store.{Store, server}
use hommey.Coordination.Semaphore.{Semaphore, acquire, semaphore}
use hommey.Coordination.Semaphore.Bounds.{Reach-bounded, acquires, here, next}
use hommey.Coordination.Breaker.{
  Keys, Settings, allow_call, closed, is_open, open_circuit, record_failure,
}
use hommey.Coordination.Breaker.Cycle.{breaker_recovers, is_closed, successes}
use hommey.Prelude.{String, [], arith, eq_iff, false, none, refl, true, ◌∷◌, ◌≡◌, ◌≤◌}

abbrev empty : Store
empty = record { clock = 9000; texts = (λ k. none); scores = (λ k. []) }

abbrev slots : Semaphore
slots = semaphore "sem" 1 45

Reach-bounded_example :
    server.zcard "sem" (acquire server slots "b" (acquire server slots "a" empty).1).1 ≤ 1
Reach-bounded_example =
    Reach-bounded server slots (next (next here (acquires "a")) (acquires "b")) (omega arith)

abbrev leased : Store
leased = record empty { scores = (λ k. ("a", 54) ∷ []) }

b_is_not_a : ¬ (Path String "b" "a")
b_is_not_a = λ e. ground (arith, e, eq_iff "b" "a")

abbrev settings : Settings
settings = record { failure_threshold = 5; recovery_timeout_sec = 60; half_open_successes = 2 }

abbrev fresh : Keys
fresh = record { state = closed; opened_at = 0; count = 0 }

abbrev tripped : Keys
tripped = record { state = open_circuit; opened_at = 100; count = 5 }

breaker_recovers_example :
    ((allow_call settings 130 tripped).0 ≡ false)
    × ((allow_call settings 170 tripped).0 ≡ true)
    × (is_closed (successes settings 2 (allow_call settings 170 tripped).1).state ≡ true)
    × (is_open (record_failure settings 170 (allow_call settings 170 tripped).1).state ≡ true)
breaker_recovers_example =
    breaker_recovers settings 130 170 2 tripped (omega arith) refl (omega arith) (omega arith)
      (omega arith)
