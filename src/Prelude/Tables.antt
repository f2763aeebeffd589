-- ===== src/Prelude/Tables.antt =====
-- Tables as lists of rows: the rows that a statement rewrites, and how many a test picks.
use Prim.Native.Nat.{ℕ, ◌+◌, ◌≤◌}
use mathlib.Core.Path.{◌≡◌, refl, subst, sym, ap}
use mathlib.Core.Logic.{inl, inr}
use mathlib.Core.Bool.{Bool, true, false}
use mathlib.Core.List.{List, [], ◌∷◌, ◌++◌, map}
use mathlib.Core.Option.{Option, none, some}
use native.Mathlib.Omega.{arith}
use hommey.Prelude.Tests.{if◌then◌else◌, Bool-cases}
use hommey.Prelude.Lists.{All, any, keep}

-- UPDATE … SET f WHERE p
abbrev pub update_where {ℓ} : {A : Type ℓ} → (A → Bool) → (A → A) → List A → List A
update_where p f js = map (λ j. if p j then f j else j) js

-- What holds of each row still holds after the rows that `p` picks are rewritten.
pub All-update_where {ℓ κ λ'} :
    {A : Type λ'} {P : A → Type ℓ} {Q : A → Type κ} (p : A → Bool) (f : A → A) (js : List A)
    → ((j : A) → p j ≡ true → Q j → P j → P (f j))
    → All Q js
    → All P js
    → All P (update_where p f js)
All-update_where p f [] k q h = tt
All-update_where p f (j ∷ js) k q h = elim (Bool-cases (p j)) [
  | inl b ↦ (rw b (k j b q.0 h.0), All-update_where p f js k q.1 h.1)
  | inr b ↦ (rw b h.0, All-update_where p f js k q.1 h.1)
]

pub All-trivial {ℓ} : {A : Type ℓ} (js : List A) → All (λ _. Unit {0}) js
All-trivial [] = tt
All-trivial (j ∷ js) = (tt, All-trivial js)

-- How many rows the test picks.
abbrev pub count {ℓ} : {A : Type ℓ} → (A → Bool) → List A → ℕ
count p [] = 0
count p (j ∷ js) = (if p j then 1 else 0) + count p js

pub count-update_where {ℓ κ} :
    {A : Type κ} {Q : A → Type ℓ} (t p : A → Bool) (f : A → A) (js : List A)
    → ((j : A) → p j ≡ true → Q j → t (f j) ≡ true → t j ≡ true)
    → All Q js
    → count t (update_where p f js) ≤ count t js
count-update_where t p f [] k q = omega arith
count-update_where t p f (j ∷ js) k q = elim (Bool-cases (p j)) [
  | inl b ↦ rw b (ground (arith, k j b q.0, count-update_where t p f js k q.1))
  | inr b ↦ rw b (omega (arith, count-update_where t p f js k q.1))
]

pub count-append {ℓ} :
    {A : Type ℓ} (t : A → Bool) (js : List A) (j : A)
    → count t (js ++ j ∷ []) ≡ count t js + (if t j then 1 else 0)
count-append t [] j = omega arith
count-append t (k ∷ js) j = omega (arith, count-append t js j)

pub count-any {ℓ} : {A : Type ℓ} (t : A → Bool) (js : List A) → any t js ≡ false → count t js ≡ 0
count-any t [] h = refl
count-any t (j ∷ js) h = ground (arith, h, count-any t js)

-- The first row that the test picks.
abbrev pub find_by {ℓ} : {A : Type ℓ} → (A → Bool) → List A → Option A
find_by p [] = none
find_by p (r ∷ rs) = if p r then some r else find_by p rs

pub find_by-holds {ℓ} :
    {A : Type ℓ} (p : A → Bool) (rs : List A) (r : A) → find_by p rs ≡ some r → p r ≡ true
find_by-holds p [] r e = cc
find_by-holds p (x ∷ rs) r e = elim (Bool-cases (p x)) [
  | inl b ↦ let k : x ≡ r = ground (arith, b, e) in subst (λ y. p y ≡ true) k b
  | inr b ↦ find_by-holds p rs r (ground (arith, b, e))
]

pub any-find_by {ℓ} :
    {A : Type ℓ} (p q : A → Bool) (rs : List A) (r : A)
    → find_by p rs ≡ some r
    → q r ≡ true
    → any q rs ≡ true
any-find_by p q [] r e h = cc
any-find_by p q (x ∷ rs) r e h = elim (Bool-cases (p x)) [
  | inl b ↦
      let k : x ≡ r = ground (arith, b, e) in
      let t : q x ≡ true = subst (λ y. q y ≡ true) (sym k) h in rw t
  | inr b ↦ ground (arith, any-find_by p q rs r (ground (arith, b, e)) h)
]

pub any-map {ℓ} :
    {A : Type ℓ} (f : A → A) (q : A → Bool) (rs : List A) → any q (map f rs) ≡ any (λ r. q (f r)) rs
any-map f q [] = refl
any-map f q (r ∷ rs) = rw (any-map f q rs)

pub any-never {ℓ} :
    {A : Type ℓ} (q : A → Bool) (rs : List A) → ((r : A) → q r ≡ false) → any q rs ≡ false
any-never q [] h = refl
any-never q (r ∷ rs) h = rw (h r, any-never q rs h)

-- A row that is found is found again after its rewriting, if the rewriting keeps the test.
pub find_by-map {ℓ} :
    {A : Type ℓ} (p : A → Bool) (f : A → A) (rs : List A) (r : A)
    → ((x : A) → p (f x) ≡ p x)
    → find_by p rs ≡ some r
    → find_by p (map f rs) ≡ some (f r)
find_by-map p f [] r k e = cc
find_by-map p f (x ∷ rs) r k e = elim (Bool-cases (p x)) [
  | inl b ↦ let i : x ≡ r = ground (arith, b, e) in rw (k x, b) (ap (λ y. some (f y)) i)
  | inr b ↦ rw (k x, b) (find_by-map p f rs r k (ground (arith, b, e)))
]

pub find_by-append {ℓ} :
    {A : Type ℓ} (p : A → Bool) (rs : List A) (r : A)
    → find_by p rs ≡ none
    → p r ≡ true
    → find_by p (rs ++ r ∷ []) ≡ some r
find_by-append p [] r e h = ground (arith, h)
find_by-append p (x ∷ rs) r e h = elim (Bool-cases (p x)) [
  | inl b ↦ ground (arith, b, e)
  | inr b ↦ rw b (find_by-append p rs r (ground (arith, b, e)) h)
]

-- An update by a test keeps what another test says of the row.
pub find_by-update_where {ℓ} :
    {A : Type ℓ} (p q : A → Bool) (f : A → A) (rs : List A) (r : A)
    → ((x : A) → p (f x) ≡ p x)
    → find_by p rs ≡ some r
    → find_by p (update_where q f rs) ≡ some (if q r then f r else r)
find_by-update_where p q f rs r k e =
    find_by-map p (λ x. if q x then f x else x) rs r
      (λ x. elim (Bool-cases (q x)) [ inl b ↦ rw b (k x) | inr b ↦ rw b refl ]) e

pub count-keep {ℓ} : {A : Type ℓ} (t p : A → Bool) (rs : List A) → count t (keep p rs) ≤ count t rs
count-keep t p [] = omega arith
count-keep t p (r ∷ rs) = elim (Bool-cases (p r)) [
  | inl b ↦ rw b (omega (arith, count-keep t p rs))
  | inr b ↦ rw b (omega (arith, count-keep t p rs))
]

pub count-map {ℓ κ} :
    {A : Type ℓ} {Q : A → Type κ} (t q : A → Bool) (f : A → A) (rs : List A)
    → ((x : A) → Q x → t (f x) ≡ true → q x ≡ true)
    → All Q rs
    → count t (map f rs) ≤ count q rs
count-map t q f [] k a = omega arith
count-map t q f (r ∷ rs) k a = elim (Bool-cases (t (f r))) [
  | inl b ↦ rw (b, k r a.0 b) (omega (arith, count-map t q f rs k a.1))
  | inr b ↦ rw b (omega (arith, count-map t q f rs k a.1))
]

count-none {ℓ} :
    {A : Type ℓ} (p : A → Bool) (c : A) (rs : List A)
    → count p rs ≡ 0
    → All (λ x. p x ≡ true → x ≡ c) rs
count-none p c [] h = tt
count-none p c (r ∷ rs) h = elim (Bool-cases (p r)) [
  | inl b ↦ absurd (omega (arith, rw b at h))
  | inr b ↦ (λ t. ground (arith, b, t), count-none p c rs (omega (arith, rw b at h)))
]

-- The row that a key finds is its only one.
pub count-find_by {ℓ} :
    {A : Type ℓ} (p : A → Bool) (c : A) (rs : List A)
    → count p rs ≤ 1
    → find_by p rs ≡ some c
    → All (λ x. p x ≡ true → x ≡ c) rs
count-find_by p c [] h e = tt
count-find_by p c (r ∷ rs) h e = elim (Bool-cases (p r)) [
  | inl b ↦ (λ _. ground (arith, b, e), count-none p c rs (omega (arith, rw b at h)))
  | inr b ↦ (
    λ t. ground (arith, b, t),
    count-find_by p c rs (omega (arith, rw b at h)) (ground (arith, b, e)),
  )
]

pub All-imp {ℓ κ λ'} :
    {A : Type ℓ} {P : A → Type κ} {Q : A → Type λ'} (rs : List A)
    → ((x : A) → P x → Q x)
    → All P rs
    → All Q rs
All-imp [] k a = tt
All-imp (r ∷ rs) k a = (k r a.0, All-imp rs k a.1)

pub find_by-none {ℓ} :
    {A : Type ℓ} (p : A → Bool) (rs : List A) → any p rs ≡ false → find_by p rs ≡ none
find_by-none p [] h = refl
find_by-none p (r ∷ rs) h = ground (arith, h, find_by-none p rs)
