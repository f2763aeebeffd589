-- ===== src/Parsing/Lines.antt =====
-- rag/block_parser.py: what one block reads of the lines. A reader takes the lines after the first
-- one of its block, and gives those that it collects and those that are left.
use hommey.Parsing.Rules.{FileType, is_md, match_heading}
use hommey.Text.{Text, strip, is_space, is_decimal, is_nonempty, Text_eq, run_length, skip_spaces}
use hommey.Prelude.{
  Bool, List, [], drop, false, if◌then◌else◌, is_some, ltb, not, ◌&&◌, ◌==◌, ◌||◌, ◌∷◌, String_eq,
  ℕ_eq,
}

abbrev pub Reader : Type 0
Reader = List Text → List Text × List Text

-- `if not stripped`
unfoldable pub is_blank : Text → Bool
unfolding strip
is_blank line = not (is_nonempty (strip line))

-- s.startswith("```")
abbrev pub starts_fence : Text → Bool
starts_fence (a ∷ b ∷ c ∷ s) = a == b'`' && b == b'`' && c == b'`'
starts_fence _ = false

abbrev pub starts_bar : Text → Bool
starts_bar (c ∷ s) = c == b'|'
starts_bar _ = false

abbrev is_colon : Text → Bool
is_colon (c ∷ s) = c == b':' || c == 0xff1a
is_colon _ = false

-- ^Q\d+\s*[:：], in either case
unfoldable pub is_question : Text → Bool
unfolding run_length is_space is_decimal
is_question [] = false
is_question (c ∷ s) =
    let n = run_length is_decimal s in
    (c == b'Q' || c == b'q') && ltb 0 n && is_colon (skip_spaces (drop n s))

after_marker : Text → Bool
unfolding run_length is_space
after_marker [] = false
after_marker (c ∷ s) =
    (c == b'-' || c == b'*' || c == 0x2022)
    && ltb 0 (run_length is_space s)
    && is_nonempty (skip_spaces s)

-- ^\s*[-*•]\s+\S
unfoldable pub is_list_item : Text → Bool
unfolding after_marker run_length is_space
is_list_item s = after_marker (skip_spaces s)

-- ^\s+
abbrev pub is_indented : Text → Bool
is_indented [] = false
is_indented (c ∷ s) = is_space c

unfoldable pub is_heading_line : FileType → Text → Bool
is_heading_line file_type line = is_some (match_heading line file_type)

-- Lines up to the first that stops the block, which is left.
unfoldable pub read_while : (Text → Bool) → Reader
read_while continues [] = ([], [])
read_while continues (l ∷ ls) =
    let r = read_while continues ls in if continues l then (l ∷ r.0, r.1) else ([], l ∷ ls)

-- The fence that closes a code block belongs to it.
unfoldable pub read_code : Reader
unfolding strip
read_code [] = ([], [])
read_code (l ∷ ls) =
    let r = read_code ls in if starts_fence (strip l) then (l ∷ [], ls) else (l ∷ r.0, r.1)

-- Blank lines in a record are passed over.
unfoldable pub read_faq : FileType → Reader
unfolding is_blank strip is_question is_heading_line
read_faq file_type [] = ([], [])
read_faq file_type (l ∷ ls) =
    let r = read_faq file_type ls in
    if is_blank l
    then r
    else if is_question (strip l) || is_heading_line file_type (strip l) || starts_fence (strip l)
    then ([], l ∷ ls)
    else (l ∷ r.0, r.1)

unfoldable pub continues_table : Text → Bool
unfolding is_blank strip
continues_table l = not (is_blank l) && starts_bar (strip l)

unfoldable pub continues_list : FileType → Text → Bool
unfolding is_blank strip is_heading_line is_list_item is_space
continues_list file_type l =
    not (is_blank l)
    && not (is_heading_line file_type (strip l) || starts_fence (strip l) || starts_bar (strip l))
    && (is_list_item (strip l) || is_indented l)

unfoldable pub continues_paragraph : FileType → Text → Bool
unfolding is_blank strip is_heading_line is_list_item is_question
continues_paragraph file_type l =
    not (is_blank l)
    && not (is_heading_line file_type (strip l))
    && not (starts_fence (strip l) || starts_bar (strip l) && is_md file_type)
    && not (is_question (strip l) || is_list_item (strip l))
