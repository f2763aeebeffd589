-- ===== src/Headings.antt =====
-- rag/block_parser.py: the stack of open headings.
mod Levels
mod Tests
use hommey.Text.{Text}
use hommey.Prelude.{List, [], if◌then◌else◌, leb, ℕ, ◌++◌, ◌∷◌}

-- `_stack`, its last heading first
abbrev pub HeadingStack : Type 0
HeadingStack = List (ℕ × Text)

-- The `while` of `push`.
pub close_headings : ℕ → HeadingStack → HeadingStack
close_headings level [] = []
close_headings level (h ∷ hs) = if leb level h.0 then close_headings level hs else h ∷ hs

unfoldable pub push : ℕ → Text → HeadingStack → HeadingStack
unfolding close_headings
push level name hs = (level, name) ∷ close_headings level hs

-- `current_path`, outermost first
unfoldable pub current_path : HeadingStack → List Text
current_path [] = []
current_path (h ∷ hs) = current_path hs ++ h.1 ∷ []
