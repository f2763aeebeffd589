-- ===== src/Headings/Levels.antt =====
-- The levels of the open headings of rag/block_parser.py.
use hommey.Text.{Text}
use hommey.Headings.{HeadingStack, close_headings, push}
use hommey.Prelude.{
  Bool-cases, [], ap, arith, false, inl, inr, keep, leb, ltb, refl, sym, true, ℕ, ◌<◌, ◌∷◌, ◌≡◌,
}

-- The level of each open heading is above the level of the one around it.
abbrev pub Nested : HeadingStack → Type 0
Nested [] = Unit
Nested (h ∷ []) = Unit
Nested (h ∷ g ∷ hs) = (g.0 < h.0) × Nested (g ∷ hs)

Nested-rest : (h : ℕ × Text) (hs : HeadingStack) → Nested (h ∷ hs) → Nested hs
Nested-rest h [] n = tt
Nested-rest h (g ∷ hs) n = n.1

keep-lower :
    (level : ℕ) (h : ℕ × Text) (hs : HeadingStack)
    → h.0 < level
    → Nested (h ∷ hs)
    → keep (λ g. ltb g.0 level) hs ≡ hs
keep-lower level h [] l n = refl
keep-lower level h (g ∷ hs) l n =
    let low : g.0 < level = omega (arith, l, n.0) in
    let b : ltb g.0 level ≡ true = ground (arith, low) in
    rw b (ap (λ t. g ∷ t) (keep-lower level g hs low n.1))

close_headings-keep :
    (level : ℕ) (hs : HeadingStack)
    → Nested hs
    → close_headings level hs ≡ keep (λ g. ltb g.0 level) hs
unfolding close_headings
close_headings-keep level [] n = refl
close_headings-keep level (h ∷ hs) n = elim (Bool-cases (leb level h.0)) [
  | inl b ↦
      let c : ltb h.0 level ≡ false = ground (arith, b) in
      rw (b, c) (close_headings-keep level hs (Nested-rest h hs n))
  | inr b ↦
      let c : ltb h.0 level ≡ true = ground (arith, b) in
      rw (b, c) (ap (λ t. h ∷ t) (sym (keep-lower level h hs (ground (arith, b)) n)))
]

close_headings-Nested :
    (level : ℕ) (name : Text) (hs : HeadingStack)
    → Nested hs
    → Nested ((level, name) ∷ close_headings level hs)
unfolding close_headings
close_headings-Nested level name [] n = tt
close_headings-Nested level name (h ∷ hs) n = elim (Bool-cases (leb level h.0)) [
  | inl b ↦ rw b (close_headings-Nested level name hs (Nested-rest h hs n))
  | inr b ↦ rw b (ground (arith, b), n)
]

-- A heading that is pushed on nested headings closes exactly those whose level is not below its
-- own, and leaves the open headings nested.
pub push-Nested :
    (level : ℕ) (name : Text) (hs : HeadingStack)
    → Nested hs
    → (push level name hs ≡ (level, name) ∷ keep (λ g. ltb g.0 level) hs)
      × Nested (push level name hs)
unfolding push
push-Nested level name hs n = (
  ap (λ t. (level, name) ∷ t) (close_headings-keep level hs n),
  close_headings-Nested level name hs n,
)
