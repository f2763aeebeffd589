-- ===== src/Parsing/Walk.antt =====
-- rag/block_parser.py: the line walker, and the blocks that it adds.
use mathlib.Core.Option
use hommey.Headings.{HeadingStack, push, current_path}
use hommey.Chunker.Blocks.{Block, BlockType, heading, paragraph, list, table, code, faq}
use hommey.Parsing.Rules.{FileType, atx, is_md, is_pdf, match_heading, match_setext_underline}
use hommey.Parsing.Lines.{
  continues_list, continues_paragraph, continues_table, is_blank, is_list_item, is_question,
  read_code, read_faq, read_while, starts_bar, starts_fence,
}
use hommey.Text.{Text, codes, strip, decimal, join, splitlines}
use hommey.Prelude.{
  List, Option, [], drop, if◌then◌else◌, length, none, some, suc, take, zero, ℕ, ◌&&◌, ◌++◌, ◌+◌,
  ◌∷◌,
}

-- What the walker meets: a call of `add_heading` or of `add_block`, each with the lines that it has
-- read for it.
pub data Entry : Type 0 where
  opened : (level : ℕ) (name text : Text) (lines : List Text) → Entry
  added : (block_type : BlockType) (lines : List Text) → Entry

abbrev pub lines_of : Entry → List Text
lines_of (opened level name text lines) = lines
lines_of (added block_type lines) = lines

abbrev pub added_by : BlockType → Text → List Text × List Text → Entry × List Text
added_by block_type line r = (added block_type (line ∷ r.0), r.1)

-- The underline of a heading in the next line.
abbrev pub underline : FileType → List Text → Option ℕ
underline file_type [] = none
underline file_type (next ∷ rest) = if is_md file_type then match_setext_underline next else none

abbrev pub atx_of : FileType → Text → Option (ℕ × Text)
atx_of file_type stripped = if is_md file_type then atx stripped else none

-- From the FAQ record on: what a line that opens no heading and no code begins.
unfoldable pub read_content : FileType → Text → List Text → Entry × List Text
unfolding strip is_question is_list_item read_while read_faq continues_table continues_list
    continues_paragraph
read_content file_type line rest =
    let s = strip line in
    if is_question s
    then added_by faq line (read_faq file_type rest)
    else if starts_bar s && is_md file_type
    then added_by table line (read_while continues_table rest)
    else if is_list_item s
    then added_by list line (read_while (continues_list file_type) rest)
    else added_by paragraph line (read_while (continues_paragraph file_type) rest)

unfoldable pub read_registry : FileType → Text → List Text → Entry × List Text
unfolding read_content strip
read_registry file_type line rest =
    let s = strip line in
    let content = read_content file_type line rest in
    elim (match_heading line file_type) [
      | none ↦ content
      | some h ↦ (opened h.0 h.1 (if is_pdf file_type then s else h.1) (line ∷ []), rest)
    ]

-- One round of the `while`, at a line that is not blank.
unfoldable pub read_entry : FileType → Text → List Text → Entry × List Text
unfolding read_registry strip read_code
read_entry file_type line rest =
    let s = strip line in
    let plain : Entry × List Text =
      if starts_fence s
      then added_by code line (read_code rest)
      else read_registry file_type line rest in
    let not_atx : Entry × List Text = elim (underline file_type rest) [
      | none ↦ plain
      | some level ↦ (opened level s s (line ∷ take 1 rest), drop 1 rest)
    ] in
    elim (atx_of file_type s) [
      | none ↦ not_atx
      | some h ↦ (opened h.0 (strip h.1) (strip h.1) (line ∷ []), rest)
    ]

-- The `while`, on fuel: `none` means that it has run out.
unfoldable pub walk : ℕ → FileType → List Text → Option (List Entry)
walk fuel file_type [] = some []
walk zero file_type (line ∷ rest) = none
walk (suc fuel) file_type (line ∷ rest) =
    let passed = walk fuel file_type rest in
    let e = read_entry file_type line rest in
    let read = Option.map (λ es. e.0 ∷ es) (walk fuel file_type e.1) in
    if is_blank line then passed else read

-- `_block_id` without a prefix
unfoldable pub block_id : Option ℕ → ℕ → Text
unfolding decimal
block_id none seq = b'b' ∷ decimal seq
block_id (some page) seq = b'p' ∷ (decimal page ++ (codes "-b" ++ decimal seq))

abbrev text_of : List Text → Text
text_of lines = strip (join (10 ∷ []) lines)

-- The blocks, numbered on from `seq`, and the headings that are open at the end.
unfoldable pub add_entries : Option ℕ → ℕ → HeadingStack → List Entry → List Block × HeadingStack
unfolding block_id strip join push current_path
add_entries page seq stack [] = ([], stack)
add_entries page seq stack (opened level name text lines ∷ es) =
    let stack' = push level name stack in
    let r = add_entries page (seq + 1) stack' es in
    (
      record {
        block_id = block_id page (seq + 1);
        block_type = heading;
        text = text;
        level = level;
        heading_path = current_path stack';
        table_data = none;
      }
          ∷ r.0,
      r.1,
    )
add_entries page seq stack (added block_type lines ∷ es) =
    let r = add_entries page (seq + 1) stack es in
    (
      record {
        block_id = block_id page (seq + 1);
        block_type = block_type;
        text = text_of lines;
        level = 0;
        heading_path = current_path stack;
        table_data = none;
      }
          ∷ r.0,
      r.1,
    )

-- `_parse_blocks` from no blocks, on the lines of a text: a round takes a line at least.
unfoldable pub parse_blocks :
    List Text → Option ℕ → FileType → HeadingStack → Option (List Block × HeadingStack)
unfolding walk add_entries
parse_blocks lines page file_type stack =
    Option.map (add_entries page 0 stack) (walk (length lines) file_type lines)

unfoldable pub parse_text_blocks :
    Text → Option ℕ → FileType → HeadingStack → Option (List Block × HeadingStack)
unfolding parse_blocks splitlines
parse_text_blocks text = parse_blocks (splitlines text)
