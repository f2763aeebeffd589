-- ===== src/Evaluation/Orders.antt =====
-- ORDER BY and LIMIT of evaluation/repository.py keep the rows.
use hommey.Evaluation.Queue.{insert_by, order_by}
use hommey.Prelude.{
  Bool-cases, In, In-append, List, [], ap, append-In, concat, inl, inr, length, ltb, map, refl,
  subst, suc, sym, ℕ, ◌∙◌, ◌∷◌, ◌≡◌, ◌⊎◌,
}

module _ {A : Type 0} (key : A → ℕ) where
  In-insert_by : (x c : A) (xs : List A) → In c (insert_by key x xs) → (x ≡ c) ⊎ In c xs
  unfolding insert_by
  In-insert_by x c [] (inl e) = inl e
  In-insert_by x c [] (inr h) = absurd h
  In-insert_by x c (y ∷ ys) h = elim (Bool-cases (ltb (key y) (key x))) [
    | inl b ↦ later (In-insert_by x c ys) (rw b at h)
    | inr b ↦ rw b at h
  ]
    where
      later :
          (In c (insert_by key x ys) → (x ≡ c) ⊎ In c ys)
          → In c (y ∷ insert_by key x ys)
          → (x ≡ c) ⊎ In c (y ∷ ys)
      later rest (inl e) = inr (inl e)
      later rest (inr i) = elim (rest i) [ inl e ↦ inl e | inr j ↦ inr (inr j) ]

  pub In-order_by : (c : A) (xs : List A) → In c (order_by key xs) → In c xs
  unfolding order_by
  In-order_by c [] h = h
  In-order_by c (x ∷ xs) h = elim (In-insert_by x c (order_by key xs) h) [
    | inl e ↦ inl e
    | inr i ↦ inr (In-order_by c xs i)
  ]

  insert_by-In : (x c : A) (xs : List A) → (x ≡ c) ⊎ In c xs → In c (insert_by key x xs)
  unfolding insert_by
  insert_by-In x c [] h = h
  insert_by-In x c (y ∷ ys) h = elim (Bool-cases (ltb (key y) (key x))) [
    | inl b ↦ rw b (later (insert_by-In x c ys) h)
    | inr b ↦ rw b h
  ]
    where
      later :
          ((x ≡ c) ⊎ In c ys → In c (insert_by key x ys))
          → (x ≡ c) ⊎ In c (y ∷ ys)
          → In c (y ∷ insert_by key x ys)
      later rest (inl e) = inr (rest (inl e))
      later rest (inr (inl e)) = inl e
      later rest (inr (inr i)) = inr (rest (inr i))

  pub order_by-In : (c : A) (xs : List A) → In c xs → In c (order_by key xs)
  unfolding order_by
  order_by-In c [] h = h
  order_by-In c (x ∷ xs) (inl e) = insert_by-In x c (order_by key xs) (inl e)
  order_by-In c (x ∷ xs) (inr i) = insert_by-In x c (order_by key xs) (inr (order_by-In c xs i))

  length-insert_by : (x : A) (xs : List A) → length (insert_by key x xs) ≡ suc (length xs)
  unfolding insert_by
  length-insert_by x [] = refl
  length-insert_by x (y ∷ ys) = elim (Bool-cases (ltb (key y) (key x))) [
    | inl b ↦ rw b (ap suc (length-insert_by x ys))
    | inr b ↦ rw b refl
  ]

  pub length-order_by : (xs : List A) → length (order_by key xs) ≡ length xs
  unfolding order_by
  length-order_by [] = refl
  length-order_by (x ∷ xs) = length-insert_by x (order_by key xs) ∙ ap suc (length-order_by xs)

pub In-concat :
    {A B : Type 0} (f : A → List B) (a : A) (b : B) (xs : List A)
    → In a xs
    → In b (f a)
    → In b (concat (map f xs))
In-concat f a b [] h i = absurd h
In-concat f a b (x ∷ xs) (inl e) i = In-append b (f x) _ (subst (λ y. In b (f y)) (sym e) i)
In-concat f a b (x ∷ xs) (inr h) i = append-In b (f x) _ (In-concat f a b xs h i)
