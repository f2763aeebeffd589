-- ===== src/Prelude/Ends.antt =====
-- The last elements of a list.
use Prim.Native.Nat.{ℕ, zero, suc, ◌+◌, ◌-◌, ◌≤◌}
use mathlib.Core.Path.{◌≡◌, refl, sym, ap, ◌∙◌}
use mathlib.Core.Logic.{inl, inr}
use mathlib.Core.List.{List, [], ◌∷◌, ◌++◌, map, reverse, reverse-cons, reverse-reverse}
use native.Mathlib.Omega.{arith}
use hommey.Prelude.Tests.{Bool-cases, leb}
use hommey.Prelude.Lists.{All, All-append, take, drop, length, length-append}
use hommey.Prelude.Members.{take-all, take-nil}

module _ {A : Type 0} where
  pub length-reverse : (xs : List A) → length (reverse xs) ≡ length xs
  length-reverse [] = refl
  length-reverse (x ∷ xs) =
      rw (reverse-cons x xs, length-append (reverse xs) (x ∷ [])) (omega (arith, length-reverse xs))

  pub All-reverse {κ} : (P : A → Type κ) (xs : List A) → All P xs → All P (reverse xs)
  All-reverse P [] h = tt
  All-reverse P (x ∷ xs) h =
      rw (reverse-cons x xs) (All-append P (reverse xs) x (All-reverse P xs h.1) h.0)

  take-append : (n : ℕ) (xs ys : List A) → n ≤ length xs → take n (xs ++ ys) ≡ take n xs
  take-append zero xs ys h = refl
  take-append (suc n) [] ys h = absurd (omega (arith, h))
  take-append (suc n) (x ∷ xs) ys h = ap (λ t. x ∷ t) (take-append n xs ys (omega (arith, h)))

  pub drop-nil : (n : ℕ) → drop n (let e : List A = [] in e) ≡ []
  drop-nil zero = refl
  drop-nil (suc n) = refl

  -- The first ones of the reversed list are the last ones.
  pub reverse-take : (n : ℕ) (xs : List A) → reverse (take n (reverse xs)) ≡ drop (length xs - n) xs
  reverse-take n [] = ap reverse (take-nil n) ∙ sym (drop-nil (0 - n))
  reverse-take n (x ∷ xs) = elim (Bool-cases (leb n (length xs))) [
    | inl b ↦
        let le : n ≤ length xs = ground (arith, b) in
        let less : length (x ∷ xs) - n ≡ suc (length xs - n) = omega (arith, le) in
        ap (λ t. reverse (take n t)) (reverse-cons x xs)
        ∙ (ap reverse (take-append n (reverse xs) (x ∷ []) (omega (arith, le, length-reverse xs)))
            ∙ (reverse-take n xs ∙ sym (ap (λ k. drop k (x ∷ xs)) less)))
    | inr b ↦
        let le : length (x ∷ xs) ≤ n = ground (arith, b) in
        let none_left : length (x ∷ xs) - n ≡ 0 = omega (arith, le) in
        ap reverse (take-all n (reverse (x ∷ xs)) (omega (arith, le, length-reverse (x ∷ xs))))
        ∙ (reverse-reverse (x ∷ xs) ∙ sym (ap (λ k. drop k (x ∷ xs)) none_left))
  ]

  pub drop-drop : (a b : ℕ) (xs : List A) → drop a (drop b xs) ≡ drop (b + a) xs
  drop-drop a zero xs = ap (λ n. drop n xs) (omega arith)
  drop-drop a (suc b) [] = drop-nil a ∙ sym (drop-nil (suc b + a))
  drop-drop a (suc b) (x ∷ xs) =
      let e : suc b + a ≡ suc (b + a) = omega arith in
      drop-drop a b xs ∙ sym (ap (λ n. drop n (x ∷ xs)) e)

  pub length-drop : (n : ℕ) (xs : List A) → length (drop n xs) ≡ length xs - n
  length-drop zero xs = omega arith
  length-drop (suc n) [] = omega arith
  length-drop (suc n) (x ∷ xs) = omega (arith, length-drop n xs)

  pub drop-all : (n : ℕ) (xs : List A) → length xs ≤ n → drop n xs ≡ []
  drop-all n [] h = drop-nil n
  drop-all zero (x ∷ xs) h = absurd (omega (arith, h))
  drop-all (suc n) (x ∷ xs) h = drop-all n xs (omega (arith, h))

module _ {A B : Type 0} (f : A → B) where
  pub length-map : (xs : List A) → length (map f xs) ≡ length xs
  length-map [] = refl
  length-map (x ∷ xs) = ap suc (length-map xs)

  pub map-drop : (n : ℕ) (xs : List A) → map f (drop n xs) ≡ drop n (map f xs)
  map-drop zero xs = refl
  map-drop (suc n) [] = refl
  map-drop (suc n) (x ∷ xs) = map-drop n xs

  pub map-append : (xs ys : List A) → map f (xs ++ ys) ≡ map f xs ++ map f ys
  map-append [] ys = refl
  map-append (x ∷ xs) ys = ap (λ t. f x ∷ t) (map-append xs ys)
