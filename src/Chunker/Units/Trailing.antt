-- ===== src/Chunker/Units/Trailing.antt =====
-- The merge unit that rag/chunker.py builds for a block with a heading after it.
use hommey.Chunker.Blocks.{Block, is_atomic_block, is_heading}
use hommey.Chunker.Units.{
  attach_from, attach_heading_only_units, attach_leading, build_loop, build_step, build_units,
  grouped, merge_loop, merge_once, merge_short_units,
}
use hommey.Prelude.{Bool-cases, [], arith, false, inl, inr, map, true, ℕ, ◌∷◌, ◌≡◌}

pub build_units-trailing :
    (m : ℕ) (p h : Block)
    → is_heading p.block_type ≡ false
    → is_heading h.block_type ≡ true
    → map (λ u. u.blocks) (build_units m (p ∷ h ∷ [])) ≡ (p ∷ h ∷ []) ∷ []
unfolding build_units grouped build_loop build_step attach_heading_only_units attach_leading
    attach_from merge_short_units merge_loop merge_once
build_units-trailing m p h np nh = elim (Bool-cases (is_atomic_block p.block_type)) [
  | inl a ↦ ground (arith, np, nh, a)
  | inr a ↦ ground (arith, np, nh, a)
]
