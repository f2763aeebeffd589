-- ===== src/Prelude/Members.antt =====
-- Rows that stand in a table.
use Prim.Native.Nat.{ℕ, zero, suc, ◌≤◌}
use mathlib.Core.Path.{◌≡◌, refl, subst, sym, ap}
use mathlib.Core.Logic.{◌⊎◌, inl, inr}
use mathlib.Core.Bool.{Bool, true, false}
use mathlib.Core.List.{List, [], ◌∷◌, ◌++◌, map}
use mathlib.Core.Option.{none}
use native.Mathlib.Omega.{arith}
use hommey.Prelude.Tests.{Bool-cases, Comparable, ◌==◌}
use hommey.Prelude.Lists.{All, any, keep, take, elem, length}
use hommey.Prelude.Tables.{update_where, count, find_by}

abbrev pub In : {A : Type 0} → A → List A → Type 0
In c [] = ⊥
In c (x ∷ xs) = (x ≡ c) ⊎ In c xs

module _ {A : Type 0} where
  pub In-append : (c : A) (xs ys : List A) → In c xs → In c (xs ++ ys)
  In-append c [] ys h = absurd h
  In-append c (x ∷ xs) ys (inl e) = inl e
  In-append c (x ∷ xs) ys (inr h) = inr (In-append c xs ys h)

  pub append-In : (c : A) (xs ys : List A) → In c ys → In c (xs ++ ys)
  append-In c [] ys h = h
  append-In c (x ∷ xs) ys h = inr (append-In c xs ys h)

  pub take-nil : (n : ℕ) → take n (let e : List A = [] in e) ≡ []
  take-nil zero = refl
  take-nil (suc n) = refl

  pub take-all : (n : ℕ) (xs : List A) → length xs ≤ n → take n xs ≡ xs
  take-all zero [] h = refl
  take-all zero (x ∷ xs) h = absurd (omega (arith, h))
  take-all (suc n) [] h = refl
  take-all (suc n) (x ∷ xs) h = ap (λ t. x ∷ t) (take-all n xs (omega (arith, h)))

  pub keep-In : (p : A → Bool) (c : A) (xs : List A) → p c ≡ true → In c xs → In c (keep p xs)
  keep-In p c [] b h = h
  keep-In p c (x ∷ xs) b (inl e) = rw (e, b) (inl refl)
  keep-In p c (x ∷ xs) b (inr h) = elim (Bool-cases (p x)) [
    | inl d ↦ rw d (inr (keep-In p c xs b h))
    | inr d ↦ rw d (keep-In p c xs b h)
  ]

  pub keep-none : (p : A → Bool) (xs : List A) → All (λ x. p x ≡ false) xs → keep p xs ≡ []
  keep-none p [] h = refl
  keep-none p (x ∷ xs) h = rw h.0 (keep-none p xs h.1)

  -- A row that a statement does not pick stays.
  pub In-update_where :
      (p : A → Bool) (f : A → A) (c : A) (xs : List A)
      → p c ≡ false
      → In c xs
      → In c (update_where p f xs)
  In-update_where p f c [] b h = absurd h
  In-update_where p f c (x ∷ xs) b (inl e) = inl (rw (e, b) refl)
  In-update_where p f c (x ∷ xs) b (inr h) = inr (In-update_where p f c xs b h)

  In-keep_head :
      (p : A → Bool) (c x : A) (xs : List A)
      → p x ≡ true
      → (In c (keep p xs) → In c xs × (p c ≡ true))
      → In c (x ∷ keep p xs)
      → In c (x ∷ xs) × (p c ≡ true)
  In-keep_head p c x xs b rest (inl e) = (inl e, subst (λ y. p y ≡ true) e b)
  In-keep_head p c x xs b rest (inr i) = let r = rest i in (inr r.0, r.1)

  pub In-keep : (p : A → Bool) (c : A) (xs : List A) → In c (keep p xs) → In c xs × (p c ≡ true)
  In-keep p c [] h = absurd h
  In-keep p c (x ∷ xs) h = elim (Bool-cases (p x)) [
    | inl b ↦ In-keep_head p c x xs b (In-keep p c xs) (rw b at h)
    | inr b ↦ let r = In-keep p c xs (rw b at h) in (inr r.0, r.1)
  ]

  pub In-take : (n : ℕ) (c : A) (xs : List A) → In c (take n xs) → In c xs
  In-take zero c xs h = absurd h
  In-take (suc n) c [] h = absurd h
  In-take (suc n) c (x ∷ xs) (inl e) = inl e
  In-take (suc n) c (x ∷ xs) (inr h) = inr (In-take n c xs h)

  pub All-In {κ} : (P : A → Type κ) (xs : List A) → ((x : A) → In x xs → P x) → All P xs
  All-In P [] h = tt
  All-In P (x ∷ xs) h = (h x (inl refl), All-In P xs (λ y i. h y (inr i)))

  pub In-All {κ} : (P : A → Type κ) (xs : List A) (c : A) → All P xs → In c xs → P c
  In-All P [] c a h = absurd h
  In-All P (x ∷ xs) c a (inl e) = subst P e a.0
  In-All P (x ∷ xs) c a (inr h) = In-All P xs c a.1 h

  pub count-pos : (p : A → Bool) (c : A) (xs : List A) → p c ≡ true → In c xs → 1 ≤ count p xs
  count-pos p c [] b h = absurd h
  count-pos p c (x ∷ xs) b (inl e) = rw (e, b) (omega arith)
  count-pos p c (x ∷ xs) b (inr h) = omega (arith, count-pos p c xs b h)

  -- Of the rows that a test picks there is only one.
  pub In-unique :
      (p : A → Bool) (a b : A) (xs : List A)
      → count p xs ≤ 1
      → p a ≡ true
      → p b ≡ true
      → In a xs
      → In b xs
      → a ≡ b
  In-unique p a b [] n pa pb h i = absurd h
  In-unique p a b (x ∷ xs) n pa pb (inl e) (inl f) = cc
  In-unique p a b (x ∷ xs) n pa pb (inl e) (inr i) =
      absurd (omega (arith, rw (e, pa) at n, count-pos p b xs pb i))
  In-unique p a b (x ∷ xs) n pa pb (inr h) (inl f) =
      absurd (omega (arith, rw (f, pb) at n, count-pos p a xs pa h))
  In-unique p a b (x ∷ xs) n pa pb (inr h) (inr i) = In-unique p a b xs (omega (arith, n)) pa pb h i

  pub find_by-any : (p : A → Bool) (xs : List A) → find_by p xs ≡ none → any p xs ≡ false
  find_by-any p [] e = refl
  find_by-any p (x ∷ xs) e = elim (Bool-cases (p x)) [
    | inl b ↦ ground (arith, b, e)
    | inr b ↦ rw b (find_by-any p xs (rw b at e))
  ]

pub elem-map {κ} :
    {A : Type 0} {K : Type κ} ⦃c : Comparable K⦄ (f : A → K) (k : K) (xs : List A)
    → elem k (map f xs) ≡ true
    → (x : A) × In x xs × (f x ≡ k)
elem-map f k [] h = absurd (cc)
elem-map ⦃c⦄ f k (x ∷ xs) h = elim (Bool-cases (k == f x)) [
  | inl b ↦ (x, inl refl, sym ((c.test_iff k (f x)).0 b))
  | inr b ↦ let r = elem-map f k xs (rw b at h) in (r.0, inr r.1, r.2)
]

pub any-append {ℓ} :
    {A : Type ℓ} (q : A → Bool) (xs ys : List A) → any q xs ≡ true → any q (xs ++ ys) ≡ true
any-append q [] ys h = absurd (cc)
any-append q (x ∷ xs) ys h = elim (Bool-cases (q x)) [
  | inl b ↦ rw b refl
  | inr b ↦ rw b (any-append q xs ys (rw b at h))
]

pub any-snoc {ℓ} :
    {A : Type ℓ} (q : A → Bool) (xs : List A) (x : A) → q x ≡ true → any q (xs ++ x ∷ []) ≡ true
any-snoc q [] x h = rw h refl
any-snoc q (y ∷ xs) x h = elim (Bool-cases (q y)) [
  | inl b ↦ rw b refl
  | inr b ↦ rw b (any-snoc q xs x h)
]

pub All-keep :
    {A : Type 0} (p : A → Bool) (P : A → Type 0) (xs : List A)
    → All (λ x. p x ≡ true → P x) xs
    → All P (keep p xs)
All-keep p P [] h = tt
All-keep p P (x ∷ xs) h = elim (Bool-cases (p x)) [
  | inl b ↦ rw b (h.0 b, All-keep p P xs h.1)
  | inr b ↦ rw b (All-keep p P xs h.1)
]
