-- ===== src/Coordination/Semaphore/Bounds.antt =====
-- The members of the semaphore of utils/redis_coordination.py over any run of calls.
use hommey.Coordination.Redis.{Redis}
use hommey.Coordination.Semaphore.{Semaphore, acquire, release, renew, seconds}
use hommey.Prelude.{
  Bool-cases, Option-cases, String, arith, eq_iff, inl, inr, leb, some, ℕ, ◌+◌, ◌<◌, ◌≡◌, ◌≢◌, ◌≤◌,
}

-- One call on the semaphore by the worker that has the token.
pub data Step (R : Redis) (sem : Semaphore) (s : R.State) : R.State → Type 0 where
  acquires : (token : String) → Step R sem s (acquire R sem token s).1
  renews : (token : String) → Step R sem s (renew R sem token s).1
  releases : (token : String) → Step R sem s (release R sem token s)

module _ (R : Redis) (sem : Semaphore) where
  acquire-bounded :
      (token : String) (s : R.State)
      → R.zcard sem.key s ≤ sem.max_concurrency
      → R.zcard sem.key (acquire R sem token s).1 ≤ sem.max_concurrency
  unfolding acquire
  acquire-bounded token s h =
      let purged = R.zremrangebyscore sem.key (seconds R s) s in
      elim (Bool-cases (leb sem.max_concurrency (R.zcard sem.key purged))) [
        | inl b ↦ rw b (omega (arith, h, R.zcard_zremrangebyscore sem.key (seconds R s) s))
        | inr b ↦
            rw b (ground (arith, b, R.zcard_zadd sem.key token (seconds R s + sem.ttl_sec) purged))
      ]

  renew-bounded :
      (token : String) (s : R.State)
      → R.zcard sem.key s ≤ sem.max_concurrency
      → R.zcard sem.key (renew R sem token s).1 ≤ sem.max_concurrency
  unfolding renew
  renew-bounded token s h = elim (Option-cases (R.zscore sem.key token s)) [
    | inl n ↦ rw n h
    | inr (e, n) ↦
        let added = R.zcard_zadd sem.key token (seconds R s + sem.ttl_sec) s in
        rw n (ground (arith, n, added, h))
  ]

  Step-bounded :
      {s t : R.State}
      → Step R sem s t
      → R.zcard sem.key s ≤ sem.max_concurrency
      → R.zcard sem.key t ≤ sem.max_concurrency
  unfolding release
  Step-bounded {s} (acquires token) h = acquire-bounded token s h
  Step-bounded {s} (renews token) h = renew-bounded token s h
  Step-bounded {s} (releases token) h = omega (arith, h, R.zcard_zrem sem.key token s)

  other-acquire :
      (token other : String) (e : ℕ) (s : R.State)
      → other ≢ token
      → R.zscore sem.key token s ≡ some e
      → seconds R s < e
      → R.zscore sem.key token (acquire R sem other s).1 ≡ some e
  unfolding acquire
  other-acquire token other e s n z l =
      let purged = R.zremrangebyscore sem.key (seconds R s) s in
      let kept = R.zscore_zremrangebyscore sem.key token (seconds R s) e s z l in
      elim (Bool-cases (leb sem.max_concurrency (R.zcard sem.key purged))) [
        | inl b ↦ rw b kept
        | inr b ↦ rw b (
            ground (
              arith,
              n,
              kept,
              eq_iff other token,
              R.zscore_zadd sem.key other token (seconds R s + sem.ttl_sec) purged,
            ))
      ]

  other-renew :
      (token other : String) (e : ℕ) (s : R.State)
      → other ≢ token
      → R.zscore sem.key token s ≡ some e
      → R.zscore sem.key token (renew R sem other s).1 ≡ some e
  unfolding renew
  other-renew token other e s n z = elim (Option-cases (R.zscore sem.key other s)) [
    | inl m ↦ rw m z
    | inr (k, m) ↦
        let added = R.zscore_zadd sem.key other token (seconds R s + sem.ttl_sec) s in
        rw m (ground (arith, n, z, added, eq_iff other token))
  ]

-- The calls on a semaphore, in any order and by any workers; time passes between them, which only
-- takes members away.
pub data Reach (R : Redis) (sem : Semaphore) (s : R.State) : R.State → Type 0 where
  here : Reach R sem s s
  next : {t u : R.State} → Reach R sem s t → Step R sem t u → Reach R sem s u
  waits :
      {t u : R.State} → Reach R sem s t → R.zcard sem.key u ≤ R.zcard sem.key t → Reach R sem s u

-- Whatever acquires, renewals and releases run, in any order and with time passing between them, a
-- semaphore never has more members than it has slots.
pub Reach-bounded :
    (R : Redis) (sem : Semaphore) {s t : R.State}
    → Reach R sem s t
    → R.zcard sem.key s ≤ sem.max_concurrency
    → R.zcard sem.key t ≤ sem.max_concurrency
Reach-bounded R sem here h = h
Reach-bounded R sem (next r st) h = Step-bounded R sem st (Reach-bounded R sem r h)
Reach-bounded R sem (waits r l) h = omega (arith, l, Reach-bounded R sem r h)

-- A lease that has not run out keeps its time when another worker acquires, renews or releases.
pub lease_kept :
    (R : Redis) (sem : Semaphore) (token other : String) (e : ℕ) (s : R.State)
    → other ≢ token
    → R.zscore sem.key token s ≡ some e
    → seconds R s < e
    → (R.zscore sem.key token (acquire R sem other s).1 ≡ some e)
      × (R.zscore sem.key token (renew R sem other s).1 ≡ some e)
      × (R.zscore sem.key token (release R sem other s) ≡ some e)
unfolding release
lease_kept R sem token other e s n z l = (
  other-acquire R sem token other e s n z l,
  other-renew R sem token other e s n z,
  ground (arith, n, z, eq_iff other token, R.zscore_zrem sem.key other token s),
)
