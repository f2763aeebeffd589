-- ===== src/Coordination.antt =====
-- utils/redis_coordination.py: locks, leases and the circuit breaker that the workers share.
pub mod Redis
pub mod Locks
pub mod Semaphore
pub mod Breaker
mod Store
mod Tests
