-- ===== src/Coordination/Redis.antt =====
-- The commands of Redis that the scripts of utils/redis_coordination.py call, and their documented
-- effects.

-- A server: what its keys can be asked, its clock in milliseconds, the commands that write, and
-- the documented effect of each. Scores are numbers; an expired key answers as a missing one.
use hommey.Prelude.{
  Option, String, false, if◌then◌else◌, is_some, none, some, ℕ, ◌+◌, ◌<◌, ◌==◌, ◌≡◌, ◌≤◌, String_eq,
  ℕ_eq,
}

pub record Redis : Type 1 where
  pub State : Type 0
  pub time : State → ℕ
  pub get : String → State → Option String
  pub zscore : String → String → State → Option ℕ
  pub zcard : String → State → ℕ
  pub pttl : String → State → ℕ
  pub set_px : String → String → ℕ → State → State
  pub pexpire : String → ℕ → State → State
  pub del : String → State → State
  pub zadd : String → ℕ → String → State → State
  pub zrem : String → String → State → State
  pub zremrangebyscore : String → ℕ → State → State
  pub get_set_px :
      (k j v : String) (n : ℕ) (s : State)
      → get j (set_px k v n s) ≡ (if k == j then some v else get j s)
  pub get_pexpire : (k j : String) (n : ℕ) (s : State) → 0 < n → get j (pexpire k n s) ≡ get j s
  pub get_del : (k j : String) (s : State) → get j (del k s) ≡ (if k == j then none else get j s)
  pub get_zadd : (k m j : String) (n : ℕ) (s : State) → get j (zadd k n m s) ≡ get j s
  pub get_zrem : (k m j : String) (s : State) → get j (zrem k m s) ≡ get j s
  pub get_zremrangebyscore :
      (k j : String) (n : ℕ) (s : State) → get j (zremrangebyscore k n s) ≡ get j s
  pub zscore_zadd :
      (k m l : String) (n : ℕ) (s : State)
      → zscore k l (zadd k n m s) ≡ (if m == l then some n else zscore k l s)
  pub zscore_zrem :
      (k m l : String) (s : State)
      → zscore k l (zrem k m s) ≡ (if m == l then none else zscore k l s)
  pub zscore_zremrangebyscore :
      (k l : String) (n e : ℕ) (s : State)
      → zscore k l s ≡ some e
      → n < e
      → zscore k l (zremrangebyscore k n s) ≡ some e
  pub zscore_set_px :
      (k j v m : String) (n : ℕ) (s : State)
      → (k == j) ≡ false
      → zscore j m (set_px k v n s) ≡ zscore j m s
  pub zscore_pexpire :
      (k j m : String) (n : ℕ) (s : State) → 0 < n → zscore j m (pexpire k n s) ≡ zscore j m s
  pub zcard_zadd :
      (k m : String) (n : ℕ) (s : State)
      → zcard k (zadd k n m s) ≡ zcard k s + (if is_some (zscore k m s) then 0 else 1)
  pub zcard_zrem : (k m : String) (s : State) → zcard k (zrem k m s) ≤ zcard k s
  pub zcard_zremrangebyscore :
      (k : String) (n : ℕ) (s : State) → zcard k (zremrangebyscore k n s) ≤ zcard k s
  pub zcard_member : (k m : String) (e : ℕ) (s : State) → zscore k m s ≡ some e → 0 < zcard k s
