-- ===== src/Chunker/Citations/Paths.antt =====
-- The heading path that rag/chunker.py gives a chunk, against the paths of its blocks.
use hommey.Chunker.Blocks.{Block}
use hommey.Chunker.Citations.{
  common_of, common_path, content_paths, heading_path, is_prefix, shorten,
}
use hommey.Text.{is_nonempty, Text, text_eqb_iff}
use hommey.Prelude.{
  All, Bool-cases, List, [], arith, false, front, inl, inr, length, not, refl, suc, true, zero, ℕ,
  ◌&&◌, ◌-◌, ◌∷◌, ◌≡◌, ◌≤◌,
}

is_prefix-front : (xs ys : List Text) → is_prefix xs ys ≡ true → is_prefix (front xs) ys ≡ true
unfolding is_prefix
is_prefix-front [] ys h = refl
is_prefix-front (x ∷ []) ys h = refl
is_prefix-front (x ∷ z ∷ xs) [] h = cc
is_prefix-front (x ∷ z ∷ xs) (y ∷ ys) h =
    ground (arith, h, is_prefix-front (z ∷ xs) ys (ground (arith, h)))

length-front : (xs : List Text) → length (front xs) ≡ length xs - 1
length-front [] = refl
length-front (x ∷ []) = omega arith
length-front (x ∷ z ∷ xs) = omega (arith, length-front (z ∷ xs))

prefix_of :
    (xs ys : List Text) → (is_nonempty xs && not (is_prefix xs ys)) ≡ false → is_prefix xs ys ≡ true
unfolding is_prefix
prefix_of [] ys h = refl
prefix_of (x ∷ xs) ys h = ground (arith, h)

shorten-prefix :
    (fuel : ℕ) (common path : List Text)
    → length common ≤ fuel
    → is_prefix (shorten fuel common path) path ≡ true
unfolding shorten is_prefix
shorten-prefix zero [] path l = refl
shorten-prefix zero (x ∷ xs) path l = absurd (omega (arith, l))
shorten-prefix (suc fuel) common path l =
    let rest = shorten-prefix fuel (front common) path (omega (arith, l, length-front common)) in
    elim (Bool-cases (is_nonempty common && not (is_prefix common path))) [
      | inl b ↦ rw b rest
      | inr b ↦ rw b (prefix_of common path b)
    ]

shorten-keeps :
    (fuel : ℕ) (common path q : List Text)
    → is_prefix common q ≡ true
    → is_prefix (shorten fuel common path) q ≡ true
unfolding shorten
shorten-keeps zero common path q h = h
shorten-keeps (suc fuel) common path q h =
    let rest = shorten-keeps fuel (front common) path q (is_prefix-front common q h) in
    elim (Bool-cases (is_nonempty common && not (is_prefix common path))) [
      | inl b ↦ rw b rest
      | inr b ↦ rw b h
    ]

common_path-keeps :
    (common : List Text) (paths : List (List Text)) (q : List Text)
    → is_prefix common q ≡ true
    → is_prefix (common_path common paths) q ≡ true
unfolding common_path
common_path-keeps common [] q h = h
common_path-keeps common (path ∷ paths) q h =
    common_path-keeps (shorten (length common) common path) paths q
      (shorten-keeps (length common) common path q h)

common_path-prefix :
    (common : List Text) (paths : List (List Text))
    → All (λ path. is_prefix (common_path common paths) path ≡ true) paths
unfolding common_path
common_path-prefix common [] = tt
common_path-prefix common (path ∷ paths) =
    let next = shorten (length common) common path in
    (
      common_path-keeps next paths path (shorten-prefix (length common) common path (omega arith)),
      common_path-prefix next paths,
    )

is_prefix_refl : (xs : List Text) → is_prefix xs xs ≡ true
unfolding is_prefix
is_prefix_refl [] = refl
is_prefix_refl (x ∷ xs) = rw ((text_eqb_iff x x).1 refl) (is_prefix_refl xs)

common_of-prefix :
    (paths : List (List Text)) → All (λ path. is_prefix (common_of paths) path ≡ true) paths
common_of-prefix [] = tt
common_of-prefix (path ∷ paths) =
    (common_path-keeps path paths path (is_prefix_refl path), common_path-prefix path paths)

-- The heading path of a chunk is a prefix of the path of each of its blocks of content that has one.
pub heading_path-prefix :
    (blocks : List Block)
    → All (λ path. is_prefix (heading_path blocks) path ≡ true) (content_paths blocks)
unfolding heading_path
heading_path-prefix blocks = common_of-prefix (content_paths blocks)
