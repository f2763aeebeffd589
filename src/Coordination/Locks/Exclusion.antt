-- ===== src/Coordination/Locks/Exclusion.antt =====
-- Who is kept out by the locks of utils/redis_coordination.py.
use hommey.Coordination.Redis.{Redis}
use hommey.Coordination.Locks.{Lock, acquire, release, renew}
use hommey.Prelude.{
  String, arith, eq_iff, false, none, refl, some, true, ◌<◌, ◌==◌, ◌∙◌, ◌≡◌, ◌≢◌, String_eq, ℕ_eq,
}

-- While a worker's token is the value of the lock's key, a worker with another token does not
-- acquire, renew or release the lock, and the token stays.
pub held_lock :
    (R : Redis) (l : Lock) (token : String) (s : R.State)
    → token ≢ l.token
    → R.get l.key s ≡ some token
    → (acquire R l s ≡ (false, s)) × (renew R l s ≡ (false, s)) × (release R l s ≡ (false, s))
unfolding acquire renew release
held_lock R l token s n h =
    let differ : (token == l.token) ≡ false = ground (arith, n, eq_iff token l.token) in
    (rw h refl, rw (h, differ) refl, rw (h, differ) refl)

module _ (R : Redis) (l : Lock) where
  same_token : (l.token == l.token) ≡ true
  same_token = ground (arith, eq_iff l.token l.token)

  acquire-get :
      (s : R.State)
      → R.get l.key s ≡ none
      → ((acquire R l s).0 ≡ true) × (R.get l.key (acquire R l s).1 ≡ some l.token)
  unfolding acquire
  acquire-get s h =
      let k : R.get l.key (R.set_px l.key l.token l.ttl_ms s) ≡ some l.token =
        ground (arith, eq_iff l.key l.key, R.get_set_px l.key l.key l.token l.ttl_ms s) in
      (rw h refl, rw h k)

  renew-get :
      (s : R.State)
      → 0 < l.ttl_ms
      → R.get l.key s ≡ some l.token
      → ((renew R l s).0 ≡ true) × (R.get l.key (renew R l s).1 ≡ some l.token)
  unfolding renew
  renew-get s p h =
      (rw (h, same_token) refl, rw (h, same_token) (R.get_pexpire l.key l.key l.ttl_ms s p ∙ h))

  release-get :
      (s : R.State)
      → R.get l.key s ≡ some l.token
      → ((release R l s).0 ≡ true) × (R.get l.key (release R l s).1 ≡ none)
  unfolding release
  release-get s h =
      let k : R.get l.key (R.del l.key s) ≡ none =
        ground (arith, eq_iff l.key l.key, R.get_del l.key l.key s) in
      (rw (h, same_token) refl, rw (h, same_token) k)

-- A lock whose key is free is acquired; the worker holds it, and while it does it can renew it and
-- then release it, which frees the key.
pub own_lock :
    (R : Redis) (l : Lock) (s : R.State)
    → 0 < l.ttl_ms
    → R.get l.key s ≡ none
    → ((acquire R l s).0 ≡ true)
      × (R.get l.key (acquire R l s).1 ≡ some l.token)
      × ((renew R l (acquire R l s).1).0 ≡ true)
      × ((release R l (renew R l (acquire R l s).1).1).0 ≡ true)
      × (R.get l.key (release R l (renew R l (acquire R l s).1).1).1 ≡ none)
own_lock R l s p h =
    let (a, b) = acquire-get R l s h in
    let (c, d) = renew-get R l (acquire R l s).1 p b in
    let (e, f) = release-get R l (renew R l (acquire R l s).1).1 d in (a, b, c, e, f)
