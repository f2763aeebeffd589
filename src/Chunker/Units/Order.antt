-- ===== src/Chunker/Units/Order.antt =====
-- The order of the blocks in the merge units of rag/chunker.py, and the end of the merging.
use hommey.Text.{is_nonempty}
use mathlib.Core.List.{append_assoc, append-nil}
use hommey.Chunker.Blocks.{Block, is_atomic_block, is_heading}
use hommey.Chunker.Units.{
  Building, MergeUnit, attach_from, build_loop, build_step, is_heading_only, merge_loop, merge_once,
  mergeable, grouped, merge_short_units,
}
use hommey.Prelude.{
  Bool-cases, List, Option-cases, [], ap, arith, false, inl, inr, length, none, refl, some, subst,
  suc, zero, ℕ, ◌++◌, ◌∙◌, ◌∷◌, ◌≡◌, ◌≤◌,
}

abbrev pub flat : List MergeUnit → List Block
flat [] = []
flat (u ∷ us) = u.blocks ++ flat us

pub flat-append : (us vs : List MergeUnit) → flat (us ++ vs) ≡ flat us ++ flat vs
flat-append [] vs = refl
flat-append (u ∷ us) vs = rw (flat-append us vs, append_assoc)

empty_of {ℓ} : {A : Type ℓ} (xs : List A) → is_nonempty xs ≡ false → xs ≡ []
empty_of [] h = refl
empty_of (x ∷ xs) h = cc

build_step-flat :
    (st : Building) (b : Block)
    → flat (build_step st b).units ++ (build_step st b).current
      ≡ (flat st.units ++ st.current) ++ b ∷ []
unfolding build_step
build_step-flat st b = elim (Bool-cases (is_heading b.block_type)) [
  | inl h ↦ elim (Bool-cases st.has_content) [
    | inl c ↦ rw (h, c) (simp (flat-append, append_assoc, append-nil))
    | inr c ↦ rw (h, c) (simp append_assoc)
  ]
  | inr h ↦ elim (Bool-cases (is_atomic_block b.block_type)) [
    | inl a ↦ elim (Bool-cases (is_nonempty st.current)) [
      | inl n ↦ rw (h, a, n) (simp (flat-append, append_assoc, append-nil))
      | inr n ↦
          let e = empty_of st.current n in
          rw (h, a, n) (simp (flat-append, append_assoc, append-nil, e))
    ]
    | inr a ↦ rw (h, a) (simp append_assoc)
  ]
]

build_loop-flat :
    (st : Building) (bs : List Block)
    → flat (build_loop st bs).units ++ (build_loop st bs).current
      ≡ (flat st.units ++ st.current) ++ bs
unfolding build_loop
build_loop-flat st [] = rw append-nil
build_loop-flat st (b ∷ bs) =
    build_loop-flat (build_step st b) bs
    ∙ rw (build_step-flat st b) (append_assoc (flat st.units ++ st.current) (b ∷ []) bs)

pub flat-attach_from :
    (last : MergeUnit) (us : List MergeUnit) → flat (attach_from last us) ≡ last.blocks ++ flat us
unfolding attach_from
flat-attach_from last [] = refl
flat-attach_from last (u ∷ us) = elim (Bool-cases (is_heading_only u)) [
  | inl b ↦ rw b (
      flat-attach_from (record last { blocks = last.blocks ++ u.blocks }) us
      ∙ append_assoc last.blocks u.blocks (flat us))
  | inr b ↦ rw b (ap (λ (x : List Block). last.blocks ++ x) (flat-attach_from u us))
]

merge_once-flat : (m : ℕ) (us ws : List MergeUnit) → merge_once m us ≡ some ws → flat ws ≡ flat us
unfolding merge_once
merge_once-flat m [] ws e = cc
merge_once-flat m (u ∷ []) ws e = cc
merge_once-flat m (u ∷ v ∷ us) ws e = elim (Bool-cases (mergeable m u v)) [
  | inl b ↦
      let k : record u { blocks = u.blocks ++ v.blocks } ∷ us ≡ ws = ground (arith, b, e) in
      rw (← k) (append_assoc u.blocks v.blocks (flat us))
  | inr b ↦ elim (Option-cases (merge_once m (v ∷ us))) [
    | inl n ↦ ground (arith, b, n, e)
    | inr (vs, n) ↦
        let k : u ∷ vs ≡ ws = ground (arith, b, n, e) in
        rw (← k) (ap (λ (x : List Block). u.blocks ++ x) (merge_once-flat m (v ∷ us) vs n))
  ]
]

merge_loop-flat : (fuel m : ℕ) (us : List MergeUnit) → flat (merge_loop fuel m us) ≡ flat us
unfolding merge_loop
merge_loop-flat zero m us = refl
merge_loop-flat (suc fuel) m us = elim (Option-cases (merge_once m us)) [
  | inl n ↦ rw (n, merge_loop)
  | inr (ws, n) ↦ rw (n, merge_loop) (merge_loop-flat fuel m ws ∙ merge_once-flat m us ws n)
]

-- Each round removes one unit.
merge_once-length :
    (m : ℕ) (us ws : List MergeUnit) → merge_once m us ≡ some ws → suc (length ws) ≡ length us
unfolding merge_once
merge_once-length m [] ws e = cc
merge_once-length m (u ∷ []) ws e = cc
merge_once-length m (u ∷ v ∷ us) ws e = elim (Bool-cases (mergeable m u v)) [
  | inl b ↦
      let k : record u { blocks = u.blocks ++ v.blocks } ∷ us ≡ ws = ground (arith, b, e) in
      rw (← k)
  | inr b ↦ elim (Option-cases (merge_once m (v ∷ us))) [
    | inl n ↦ ground (arith, b, n, e)
    | inr (vs, n) ↦
        let k : u ∷ vs ≡ ws = ground (arith, b, n, e) in
        rw (← k) (ap suc (merge_once-length m (v ∷ us) vs n))
  ]
]

merge_loop-none :
    (fuel m : ℕ) (us : List MergeUnit)
    → length us ≤ fuel
    → merge_once m (merge_loop fuel m us) ≡ none
unfolding merge_loop
merge_loop-none zero m [] h = unfold merge_once in refl
merge_loop-none zero m (u ∷ us) h = absurd (omega arith)
merge_loop-none (suc fuel) m us h = elim (Option-cases (merge_once m us)) [
  | inl n ↦ rw (n, merge_loop) n
  | inr (ws, n) ↦
      rw (n, merge_loop) (merge_loop-none fuel m ws (omega (arith, merge_once-length m us ws n)))
]

pub flat-grouped : (blocks : List Block) → flat (grouped blocks) ≡ blocks
unfolding grouped
flat-grouped blocks =
    let start : Building = record { units = []; current = []; has_content = false } in
    let st = build_loop start blocks in
    elim (Bool-cases (is_nonempty st.current)) [
      | inl n ↦ rw n (rw (flat-append st.units) (simp append-nil (build_loop-flat start blocks)))
      | inr n ↦
          let whole =
            subst (λ (c : List Block). flat st.units ++ c ≡ blocks) (empty_of st.current n)
              (build_loop-flat start blocks) in
          rw n (rw append-nil at whole)
    ]

pub flat-merge_short_units : (m : ℕ) (us : List MergeUnit) → flat (merge_short_units m us) ≡ flat us
unfolding merge_short_units
flat-merge_short_units m us = merge_loop-flat (length us) m us

-- When `_merge_short_units` ends, no two neighbours could still be merged.
pub merge_short_units_done :
    (m : ℕ) (us : List MergeUnit) → merge_once m (merge_short_units m us) ≡ none
unfolding merge_short_units
merge_short_units_done m us = merge_loop-none (length us) m us (omega arith)
