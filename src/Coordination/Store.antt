-- ===== src/Coordination/Store.antt =====
-- A server for the witnesses: it keeps texts and members in tables, and nothing in it expires.
use hommey.Coordination.Redis.{Redis}
use hommey.Prelude.{
  Bool, Bool-cases, Dict, List, Option, String, [], ap, arith, eq_iff, if◌then◌else◌, inl, inr,
  insert, is_some, keep, length, lookup, lookup-insert, ltb, none, not, refl, some, true, ℕ, ◌+◌,
  ◌<◌, ◌==◌, ◌∙◌, ◌∷◌, ◌≡◌, ◌≤◌, String_eq, ℕ_eq,
}

pub record Store : Type 0 where
  pub clock : ℕ
  pub texts : String → Option String
  pub scores : String → Dict ℕ

abbrev pub at {ℓ} : {V : Type ℓ} → String → V → (String → V) → String → V
at k v f j = if k == j then v else f j

pub at-same {ℓ} : {V : Type ℓ} (k : String) (v : V) (f : String → V) → at k v f k ≡ v
at-same k v f = let same : (k == k) ≡ true = ground (arith, eq_iff k k) in rw same refl

pub length-insert :
    (k : String) (n : ℕ) (d : Dict ℕ)
    → length (insert k n d) ≡ length d + (if is_some (lookup k d) then 0 else 1)
unfolding insert lookup
length-insert k n [] = refl
length-insert k n ((j, m) ∷ d) = elim (Bool-cases (j == k)) [
  | inl b ↦ rw b (omega arith)
  | inr b ↦ rw b (omega (arith, length-insert k n d))
]

pub length-keep {ℓ} : {A : Type ℓ} (p : A → Bool) (xs : List A) → length (keep p xs) ≤ length xs
length-keep p [] = omega arith
length-keep p (x ∷ xs) = elim (Bool-cases (p x)) [
  | inl b ↦ rw b (omega (arith, length-keep p xs))
  | inr b ↦ rw b (omega (arith, length-keep p xs))
]

abbrev pub without : String → Dict ℕ → Dict ℕ
without k d = keep (λ p. not (p.0 == k)) d

abbrev pub after : ℕ → Dict ℕ → Dict ℕ
after n d = keep (λ p. ltb n p.1) d

pub lookup-without :
    (k j : String) (d : Dict ℕ) → lookup j (without k d) ≡ (if k == j then none else lookup j d)
unfolding lookup
lookup-without k j [] = ground arith
lookup-without k j ((i, n) ∷ d) =
    ground (arith, lookup-without k j d, eq_iff i k, eq_iff i j, eq_iff k j)

pub lookup-after :
    (n e : ℕ) (j : String) (d : Dict ℕ)
    → lookup j d ≡ some e
    → n < e
    → lookup j (after n d) ≡ some e
unfolding lookup
lookup-after n e j [] h l = cc
lookup-after n e j ((i, m) ∷ d) h l = elim (Bool-cases (i == j)) [
  | inl b ↦ ground (arith, b, h, l)
  | inr b ↦ ground (arith, b, h, lookup-after n e j d (ground (arith, b, h)) l)
]

pub lookup-length : (j : String) (e : ℕ) (d : Dict ℕ) → lookup j d ≡ some e → 0 < length d
unfolding lookup
lookup-length j e [] h = cc
lookup-length j e (p ∷ d) h = omega arith

abbrev pub server : Redis
server = record {
  State = Store;
  time = λ s. s.clock;
  get = λ k s. s.texts k;
  zscore = λ k m s. lookup m (s.scores k);
  zcard = λ k s. length (s.scores k);
  pttl = λ k s. 0;
  set_px = λ k v n s. record s { texts = at k (some v) s.texts };
  pexpire = λ k n s. s;
  del = λ k s. record s { texts = at k none s.texts };
  zadd = λ k n m s. record s { scores = at k (insert m n (s.scores k)) s.scores };
  zrem = λ k m s. record s { scores = at k (without m (s.scores k)) s.scores };
  zremrangebyscore = λ k n s. record s { scores = at k (after n (s.scores k)) s.scores };
  get_set_px = λ k j v n s. refl;
  get_pexpire = λ k j n s p. refl;
  get_del = λ k j s. refl;
  get_zadd = λ k m j n s. refl;
  get_zrem = λ k m j s. refl;
  get_zremrangebyscore = λ k j n s. refl;
  zscore_zadd = λ k m l n s.
      ap (lookup l) (at-same k (insert m n (s.scores k)) s.scores)
      ∙ lookup-insert m l n (s.scores k);
  zscore_zrem = λ k m l s.
      ap (lookup l) (at-same k (without m (s.scores k)) s.scores) ∙ lookup-without m l (s.scores k);
  zscore_zremrangebyscore = λ k l n e s h p.
      ap (lookup l) (at-same k (after n (s.scores k)) s.scores)
      ∙ lookup-after n e l (s.scores k) h p;
  zscore_set_px = λ k j v m n s h. refl;
  zscore_pexpire = λ k j m n s p. refl;
  zcard_zadd = λ k m n s.
      ap length (at-same k (insert m n (s.scores k)) s.scores) ∙ length-insert m n (s.scores k);
  zcard_zrem = λ k m s. omega (
    arith,
    ap length (at-same k (without m (s.scores k)) s.scores),
    length-keep (λ p. not (p.0 == m)) (s.scores k),
  );
  zcard_zremrangebyscore = λ k n s. omega (
    arith,
    ap length (at-same k (after n (s.scores k)) s.scores),
    length-keep (λ p. ltb n p.1) (s.scores k),
  );
  zcard_member = λ k m e s h. lookup-length m e (s.scores k) h;
}
