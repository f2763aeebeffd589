-- ===== src/Parsing/Shown.antt =====
-- rag/block_parser.py: which lines each block shows.
use hommey.Chunker.Blocks.{Block, heading, is_heading}
use hommey.Parsing.Rules.{FileType}
use hommey.Text.{Text, strip, join, is_nonempty}
use hommey.Parsing.Headed.{Heads}
use hommey.Prelude.{List, [], false, true, ◌∷◌, ◌≡◌}

-- A heading block shows what its line, or the line over its underline, says; any other block shows
-- all its lines.
pub data IsShown (t : FileType) (b : Block) (lines : List Text) : Type 0 where
  heads : b.block_type ≡ heading → Heads t b.level b.text lines → IsShown t b lines
  holds :
      is_heading b.block_type ≡ false
      → b.level ≡ 0
      → is_nonempty lines ≡ true
      → b.text ≡ strip (join (10 ∷ []) lines)
      → IsShown t b lines

-- One piece of the page for each block.
abbrev pub AreShown : FileType → List Block → List (List Text) → Type 0
AreShown t [] [] = Unit
AreShown t [] (p ∷ ps) = ⊥
AreShown t (b ∷ bs) [] = ⊥
AreShown t (b ∷ bs) (p ∷ ps) = IsShown t b p × AreShown t bs ps
