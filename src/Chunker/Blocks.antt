-- ===== src/Chunker/Blocks.antt =====
-- The blocks that rag/chunker.py chunks (rag/schemas.py), and their sizes.
use hommey.Text.{Text, Text_eq}
use hommey.Prelude.{
  Bool, List, Option, String, [], any, false, if◌then◌else◌, leb, not, true, ℕ, ◌&&◌, ◌+◌, ◌==◌,
  ◌||◌, ◌∷◌, String_eq, ℕ_eq,
}

pub data BlockType : Type 0 where
  heading paragraph list table code faq image other : BlockType

abbrev pub is_heading : BlockType → Bool
is_heading heading = true
is_heading _ = false

-- block_type in ATOMIC_BLOCK_TYPES
abbrev pub is_atomic_block : BlockType → Bool
is_atomic_block code = true
is_atomic_block table = true
is_atomic_block faq = true
is_atomic_block _ = false

-- The row window of a band of a table.
pub record Band : Type 0 where
  pub index : ℕ
  pub total : ℕ
  pub row_start : ℕ
  pub row_end : ℕ

-- `table_data`, its cells as texts
pub record TableData : Type 0 where
  pub sheet : Option String
  pub table_id : String
  pub cells : List (List Text)
  pub band : Option Band

pub record Block : Type 0 where
  pub block_id : Text
  pub block_type : BlockType
  pub text : Text
  pub level : ℕ
  pub heading_path : List Text
  pub table_data : Option TableData

-- _CJK_RE: U+3000 to U+303F, U+3400 to U+4DBF, U+4E00 to U+9FFF
unfoldable pub is_cjk : ℕ → Bool
is_cjk c =
    leb 0x3000 c && leb c 0x303f || leb 0x3400 c && leb c 0x4dbf || leb 0x4e00 c && leb c 0x9fff

-- [A-Za-z0-9_]
unfoldable pub is_word : ℕ → Bool
is_word c =
    leb b'A' c && leb c b'Z' || leb b'a' c && leb c b'z' || leb b'0' c && leb c b'9' || c == b'_'

-- CJK characters and maximal runs of word characters; the flag says that a run is open.
unfoldable pub count_tokens : Bool → Text → ℕ
unfolding is_cjk is_word
count_tokens open_run [] = 0
count_tokens open_run (c ∷ s) =
    (if is_cjk c || is_word c && not open_run then 1 else 0) + count_tokens (is_word c) s

unfoldable pub token_count : Text → ℕ
unfolding count_tokens
token_count text = count_tokens false text

abbrev pub block_tokens : List Block → ℕ
block_tokens [] = 0
block_tokens (b ∷ bs) = token_count b.text + block_tokens bs

-- `_has_content`
abbrev pub has_content : List Block → Bool
has_content bs = any (λ b. not (is_heading b.block_type)) bs
