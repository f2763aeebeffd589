-- ===== src/Coordination/Breaker/Cycle.antt =====
-- How the breaker of utils/redis_coordination.py trips and recovers.
use hommey.Coordination.Breaker.{
  Keys, Settings, open_circuit, record_failure, record_success, BreakerState, allow_call, closed,
  half_open, is_open, refresh,
}
use hommey.Prelude.{
  Bool, Bool-cases, ap, arith, false, inl, inr, leb, suc, true, zero, ℕ, ◌+◌, ◌<◌, ◌∙◌, ◌≡◌, ◌≤◌,
}

-- `n` failures in a row, all at the same time.
abbrev pub failures : Settings → ℕ → ℕ → Keys → Keys
failures c now zero k = k
failures c now (suc n) k = failures c now n (record_failure c now k)

abbrev pub successes : Settings → ℕ → Keys → Keys
successes c zero k = k
successes c (suc n) k = successes c n (record_success c k)

abbrev pub is_closed : BreakerState → Bool
is_closed closed = true
is_closed _ = false

failures-open :
    (c : Settings) (now n : ℕ) (k : Keys)
    → k.state ≡ open_circuit
    → is_open (failures c now n k).state ≡ true
unfolding record_failure
failures-open c now zero k h = ground (arith, h)
failures-open c now (suc n) k h = failures-open c now n (record_failure c now k) (ground (arith, h))

failures-counted :
    (c : Settings) (now n : ℕ) (k : Keys)
    → k.state ≡ closed
    → k.count < c.failure_threshold
    → is_open (failures c now n k).state ≡ leb c.failure_threshold (k.count + n)
unfolding record_failure
failures-counted c now zero k h l = ground (arith, h, l)
failures-counted c now (suc n) k h l = elim (Bool-cases (leb c.failure_threshold (k.count + 1))) [
  | inl b ↦
      let tripped : (record_failure c now k).state ≡ open_circuit = ground (arith, h, b) in
      failures-open c now n (record_failure c now k) tripped ∙ ground (arith, b)
  | inr b ↦
      let still : (record_failure c now k).state ≡ closed = ground (arith, h, b) in
      let more : (record_failure c now k).count ≡ k.count + 1 = ground (arith, h, b) in
      failures-counted c now n (record_failure c now k) still (ground (arith, more, b))
      ∙ ap (leb c.failure_threshold) (omega (arith, more))
]

-- A closed breaker without failures opens at the failure that reaches the threshold, no earlier.
pub failures_trip :
    (c : Settings) (now n : ℕ) (k : Keys)
    → 0 < c.failure_threshold
    → k.state ≡ closed
    → k.count ≡ 0
    → is_open (failures c now n k).state ≡ leb c.failure_threshold n
failures_trip c now n k p h z =
    failures-counted c now n k h (omega (arith, p, z))
    ∙ ap (leb c.failure_threshold) (omega (arith, z))

successes-closed :
    (c : Settings) (n : ℕ) (k : Keys) → k.state ≡ closed → is_closed (successes c n k).state ≡ true
unfolding record_success
successes-closed c zero k h = ground (arith, h)
successes-closed c (suc n) k h = successes-closed c n (record_success c k) (ground (arith, h))

successes-counted :
    (c : Settings) (n : ℕ) (k : Keys)
    → k.state ≡ half_open
    → k.count < c.half_open_successes
    → is_closed (successes c n k).state ≡ leb c.half_open_successes (k.count + n)
unfolding record_success
successes-counted c zero k h l = ground (arith, h, l)
successes-counted c (suc n) k h l = elim (Bool-cases (leb c.half_open_successes (k.count + 1))) [
  | inl b ↦
      let healed : (record_success c k).state ≡ closed = ground (arith, h, b) in
      successes-closed c n (record_success c k) healed ∙ ground (arith, b)
  | inr b ↦
      let still : (record_success c k).state ≡ half_open = ground (arith, h, b) in
      let more : (record_success c k).count ≡ k.count + 1 = ground (arith, h, b) in
      successes-counted c n (record_success c k) still (ground (arith, more, b))
      ∙ ap (leb c.half_open_successes) (omega (arith, more))
]

-- An open breaker refuses calls until the recovery time has passed since it opened; the first call
-- after it goes through, and then the breaker closes at the success that reaches the number asked
-- for, no earlier, while one failure opens it again.
pub breaker_recovers :
    (c : Settings) (now later n : ℕ) (k : Keys)
    → 0 < c.half_open_successes
    → k.state ≡ open_circuit
    → 0 < k.opened_at
    → now < k.opened_at + c.recovery_timeout_sec
    → k.opened_at + c.recovery_timeout_sec ≤ later
    → ((allow_call c now k).0 ≡ false)
      × ((allow_call c later k).0 ≡ true)
      × (is_closed (successes c n (allow_call c later k).1).state ≡ leb c.half_open_successes n)
      × (is_open (record_failure c later (allow_call c later k).1).state ≡ true)
unfolding allow_call refresh record_failure
breaker_recovers c now later n k p h o early late =
    let half : (allow_call c later k).1.state ≡ half_open = ground (arith, h, o, late) in
    let fresh : (allow_call c later k).1.count ≡ 0 = ground (arith, h, o, late) in
    (
      ground (arith, h, o, early),
      ground (arith, half),
      successes-counted c n (allow_call c later k).1 half (omega (arith, p, fresh))
          ∙ ap (leb c.half_open_successes) (omega (arith, fresh)),
      ground (arith, half),
    )
