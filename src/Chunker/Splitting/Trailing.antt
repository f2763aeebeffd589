-- ===== src/Chunker/Splitting/Trailing.antt =====
-- What rag/chunker.py makes of a page that ends in a heading.
use mathlib.Core.List.{flat_map}
use hommey.Chunker.Blocks.{Block, is_heading, token_count, block_tokens}
use hommey.Chunker.Units.{build_units}
use hommey.Chunker.Units.Trailing.{build_units-trailing}
use hommey.Chunker.Splitting.{
  split_blocks, split_loop, split_part, split_single, split_step, split_unit,
}
use hommey.Prelude.{List, [], append-nil, arith, false, leb, map, true, ℕ, ◌+◌, ◌<◌, ◌∷◌, ◌≡◌, ◌≤◌}

-- The parts of a page's units, as `_chunk_document_group` makes them.
abbrev pub page_parts : ℕ → ℕ → List Block → List (List Block)
page_parts max_tokens overlap_tokens blocks =
    flat_map (split_unit max_tokens overlap_tokens)
      (map (λ u. u.blocks) (build_units max_tokens blocks))

split_unit-trailing :
    (m o : ℕ) (p h : Block)
    → is_heading p.block_type ≡ false
    → is_heading h.block_type ≡ true
    → token_count p.text ≤ m
    → m < token_count p.text + token_count h.text
    → split_unit m o (p ∷ h ∷ []) ≡ (p ∷ []) ∷ (h ∷ []) ∷ []
unfolding split_unit split_blocks split_loop split_step split_part split_single flat_map
split_unit-trailing m o p h np nh fits over =
    let big : leb (block_tokens (p ∷ h ∷ [])) m ≡ false = ground (arith, over) in
    let parts : split_blocks m (p ∷ h ∷ []) ≡ (p ∷ []) ∷ (h ∷ []) ∷ [] =
      ground (arith, np, nh, fits, over) in
    let first : split_part m o (p ∷ []) ≡ (p ∷ []) ∷ [] = ground (arith, np, fits) in
    let second : split_part m o (h ∷ []) ≡ (h ∷ []) ∷ [] = ground (arith, nh) in
    rw (big, parts, first, second)

-- A page of one block that fits the budget and a heading that does not fit beside it yields two
-- parts, the second of which is the heading alone.
pub page_parts-trailing :
    (m o : ℕ) (p h : Block)
    → is_heading p.block_type ≡ false
    → is_heading h.block_type ≡ true
    → token_count p.text ≤ m
    → m < token_count p.text + token_count h.text
    → page_parts m o (p ∷ h ∷ []) ≡ (p ∷ []) ∷ (h ∷ []) ∷ []
unfolding flat_map
page_parts-trailing m o p h np nh fits over =
    rw (build_units-trailing m p h np nh, append-nil) (split_unit-trailing m o p h np nh fits over)
