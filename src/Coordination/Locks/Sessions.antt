-- ===== src/Coordination/Locks/Sessions.antt =====
-- The activity lock of utils/redis_coordination.py, between a clearing of the history and a session.
use hommey.Coordination.Redis.{Redis}
use hommey.Coordination.Locks.{ActivityLock, acquire_activity, extend, lease}
use hommey.Prelude.{
  Bool-cases, String, ap, arith, eq_iff, false, inl, inr, is_some, ltb, refl, some, sym, true, ◌+◌,
  ◌<◌, ◌∙◌, ◌≡◌,
}

module _ (R : Redis) where
  extend-zscore :
      (l : ActivityLock) (token : String) (s : R.State)
      → 0 < l.ttl_ms
      → R.zscore l.activity_key token (extend R l s) ≡ R.zscore l.activity_key token s
  unfolding extend
  extend-zscore l token s p = elim (Bool-cases (ltb (R.pttl l.activity_key s) l.ttl_ms)) [
    | inl b ↦ rw b (R.zscore_pexpire l.activity_key l.activity_key token l.ttl_ms s p)
    | inr b ↦ rw b refl
  ]

-- A clearing of the history that has been acquired refuses each session of the user, in whatever
-- later state the history key is still set.
pub shared_waits :
    (R : Redis) (l m : ActivityLock) (s t u : R.State)
    → l.exclusive ≡ true
    → l.key ≡ l.history_key
    → acquire_activity R l s ≡ (true, t)
    → R.get l.history_key u ≡ R.get l.history_key t
    → m.exclusive ≡ false
    → m.history_key ≡ l.history_key
    → (acquire_activity R m u).0 ≡ false
unfolding acquire_activity
shared_waits R l m s t u x k e same y h =
    let purged = R.zremrangebyscore l.activity_key (R.time s) s in
    let taken = R.set_px l.key l.token l.ttl_ms purged in
    elim (Bool-cases (ltb 0 (R.zcard l.activity_key purged))) [
      | inl c ↦ ground (arith, x, c, e)
      | inr c ↦ elim (Bool-cases (is_some (R.get l.key purged))) [
        | inl g ↦ ground (arith, x, c, g, e)
        | inr g ↦
            let d : taken ≡ t = ground (arith, x, c, g, e) in
            let set : R.get l.history_key taken ≡ some l.token = ground (
              arith,
              k,
              eq_iff l.key l.history_key,
              R.get_set_px l.key l.history_key l.token l.ttl_ms purged,
            ) in
            let kept : R.get m.history_key u ≡ some l.token =
              ap (λ j. R.get j u) h ∙ same ∙ ap (R.get l.history_key) (sym d) ∙ set in
            let closed : is_some
                  (R.get m.history_key (R.zremrangebyscore m.activity_key (R.time u) u))
                ≡ true =
              ap is_some
                (R.get_zremrangebyscore m.activity_key m.history_key (R.time u) u ∙ kept) in
            rw (y, closed) refl
      ]
    ]

-- A session that has been acquired refuses a clearing of the history until its lease runs out, in
-- whatever later state its member is still in the activity key.
pub exclusive_waits :
    (R : Redis) (l m : ActivityLock) (s t u : R.State)
    → 0 < l.ttl_ms
    → l.exclusive ≡ false
    → acquire_activity R l s ≡ (true, t)
    → R.zscore l.activity_key l.token u ≡ R.zscore l.activity_key l.token t
    → R.time u < R.time s + l.ttl_ms
    → m.exclusive ≡ true
    → m.activity_key ≡ l.activity_key
    → (acquire_activity R m u).0 ≡ false
unfolding acquire_activity
exclusive_waits R l m s t u p x e same late y h =
    let purged = R.zremrangebyscore l.activity_key (R.time s) s in
    let leased = lease R l (R.time s) (R.set_px l.key l.token l.ttl_ms purged) in
    elim (Bool-cases (is_some (R.get l.history_key purged))) [
      | inl c ↦ ground (arith, x, c, e)
      | inr c ↦ elim (Bool-cases (is_some (R.get l.key purged))) [
        | inl g ↦ ground (arith, x, c, g, e)
        | inr g ↦
            let d : extend R l leased ≡ t = ground (arith, x, c, g, e) in
            let end = R.time s + l.ttl_ms in
            let set : R.zscore l.activity_key l.token (extend R l leased) ≡ some end =
              extend-zscore R l l.token leased p
              ∙ ground (
                arith,
                eq_iff l.token l.token,
                R.zscore_zadd l.activity_key l.token l.token end
                    (R.set_px l.key l.token l.ttl_ms purged),
              ) in
            let kept : R.zscore m.activity_key l.token u ≡ some end =
              ap (λ j. R.zscore j l.token u) h
              ∙ same
              ∙ ap (R.zscore l.activity_key l.token) (sym d)
              ∙ set in
            let live =
              R.zscore_zremrangebyscore m.activity_key l.token (R.time u) end u kept late in
            let busy : ltb 0
                  (R.zcard m.activity_key (R.zremrangebyscore m.activity_key (R.time u) u))
                ≡ true =
              ground (arith, R.zcard_member m.activity_key l.token end _ live) in
            rw (y, busy) refl
      ]
    ]
