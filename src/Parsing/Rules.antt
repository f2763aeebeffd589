-- ===== src/Parsing/Rules.antt =====
-- rag/heading_rules.py: the rules that recognise a heading, as matchers on stripped lines.
use hommey.Text.{
  Text, codes, strip, is_space, is_decimal, is_nonempty, Text_eq, run_length, skip_spaces,
}
use hommey.Prelude.{
  Bool, List, Option, [], drop, elem, false, if◌then◌else◌, leb, ltb, none, not, some, true, ℕ,
  ◌&&◌, ◌==◌, ◌||◌, ◌∷◌, String_eq, ℕ_eq,
}

-- `file_type`
pub data FileType : Type 0 where
  txt md pdf docx : FileType

abbrev pub is_md : FileType → Bool
is_md md = true
is_md _ = false

abbrev pub is_pdf : FileType → Bool
is_pdf pdf = true
is_pdf _ = false

-- [一二三四五六七八九十百]
abbrev pub is_numeral : ℕ → Bool
is_numeral c = elem c (codes "一二三四五六七八九十百")

-- [一二三四五六七八九十百零〇\d]
abbrev pub is_chapter_numeral : ℕ → Bool
is_chapter_numeral c = elem c (codes "一二三四五六七八九十百零〇") || is_decimal c

abbrev is_hash : ℕ → Bool
is_hash c = c == b'#'

-- \s*#*\s*$
closes : Text → Bool
closes s = let t = skip_spaces s in not (is_nonempty (skip_spaces (drop (run_length is_hash t) t)))

-- (.+?)\s*#*\s*$, the shortest title: at least one character, up to where the rest closes
unfoldable pub shortest_title : Text → Text
unfolding closes
shortest_title [] = []
shortest_title (c ∷ s) = if closes s then c ∷ [] else c ∷ shortest_title s

-- ^(#{1,6})\s+(.+?)\s*#*\s*$ on a stripped line: the number of marks, and the title
unfoldable pub atx : Text → Option (ℕ × Text)
unfolding run_length is_space shortest_title
atx s =
    let marks = run_length is_hash s in
    let t = drop marks s in
    let title = skip_spaces t in
    if leb 1 marks && leb marks 6 && ltb 0 (run_length is_space t) && is_nonempty title
    then some (marks, shortest_title title)
    else none

markdown_atx : Text → Option Text
markdown_atx s = elim (atx s) [ none ↦ none | some m ↦ some m.1 ]

starts : Text → Text → Bool
starts [] s = true
starts (c ∷ w) [] = false
starts (c ∷ w) (d ∷ s) = c == d && starts w s

-- (?:部分|章|节|篇)
after_chapter_word : Text → Option Text
after_chapter_word s =
    if starts (codes "部分") s
    then some (drop 2 s)
    else if starts (codes "章") s || starts (codes "节") s || starts (codes "篇") s
    then some (drop 1 s)
    else none

-- ^第[一二三四五六七八九十百零〇\d]+(?:部分|章|节|篇)\s*(.*)$
chinese_chapter : Text → Option Text
unfolding run_length is_space is_decimal after_chapter_word starts
chinese_chapter [] = none
chinese_chapter (c ∷ s) =
    let n = run_length is_chapter_numeral s in
    if c == 0x7b2c && ltb 0 n
    then elim (after_chapter_word (drop n s)) [ none ↦ none | some t ↦ some (skip_spaces t) ]
    else none

-- The heading after its mark, which a `(.+)` takes if there is any.
titled : Text → Option Text
titled s = if is_nonempty s then some s else none

-- [、](.+) or [.．]\s+(.+), after the number of a heading
after_mark : Text → Option Text
after_mark [] = none
after_mark (c ∷ s) =
    if c == 0x3001
    then titled s
    else if c == b'.' || c == 0xff0e
    then (if ltb 0 (run_length is_space s) then titled (skip_spaces s) else none)
    else none

-- ^(?:[…]+[、]|[…]+[.．]\s+)(.+)$, for the class of a number's characters
numbered : (ℕ → Bool) → Text → Option Text
unfolding run_length is_space after_mark titled
numbered p s = let n = run_length p s in if ltb 0 n then after_mark (drop n s) else none

after_close : Text → Option Text
after_close [] = none
after_close (c ∷ s) = if c == 0xff09 || c == b')' then titled (skip_spaces s) else none

-- ^[（(][…]+[）)]\s*(.+)$
parenthesized : (ℕ → Bool) → Text → Option Text
unfolding run_length is_space after_close titled
parenthesized p [] = none
parenthesized p (c ∷ s) =
    let n = run_length p s in
    if (c == 0xff08 || c == b'(') && ltb 0 n then after_close (drop n s) else none

-- A rule's level, its pattern on a stripped line, and whether it applies to a type.
pub record HeadingRule : Type 0 where
  pub level : ℕ
  pub pattern : Text → Option Text
  pub applies : FileType → Bool

unfoldable pub heading_rules : List HeadingRule
unfolding markdown_atx atx chinese_chapter numbered parenthesized is_decimal
heading_rules =
    record { level = 1; pattern = markdown_atx; applies = is_md }
    ∷ record { level = 1; pattern = chinese_chapter; applies = λ _. true }
    ∷ record { level = 1; pattern = numbered is_numeral; applies = λ _. true }
    ∷ record { level = 2; pattern = parenthesized is_numeral; applies = λ _. true }
    ∷ record { level = 3; pattern = numbered is_decimal; applies = λ _. true }
    ∷ record { level = 4; pattern = parenthesized is_decimal; applies = λ _. true }
    ∷ []

-- `HeadingRule.match`
unfoldable pub match_rule : HeadingRule → Text → FileType → Option Text
unfolding strip
match_rule r line file_type =
    if r.applies file_type
    then elim (r.pattern (strip line)) [ none ↦ none | some t ↦ some (strip t) ]
    else none

unfoldable pub first_match : List HeadingRule → Text → FileType → Option (ℕ × Text)
unfolding match_rule
first_match [] line file_type = none
first_match (r ∷ rs) line file_type =
    let later = first_match rs line file_type in
    elim (match_rule r line file_type) [ none ↦ later | some t ↦ some (r.level, t) ]

unfoldable pub match_heading : Text → FileType → Option (ℕ × Text)
unfolding first_match heading_rules
match_heading line file_type = first_match heading_rules line file_type

abbrev only_spaces : Text → Bool
only_spaces s = not (is_nonempty (skip_spaces s))

-- ^\s*(=+|-+)\s*$: the level of an underline, 1 for "=" and 2 for "-"
unfoldable pub match_setext_underline : Text → Option ℕ
unfolding run_length is_space
match_setext_underline line =
    let s = skip_spaces line in
    let equals = run_length (λ c. c == b'=') s in
    let dashes = run_length (λ c. c == b'-') s in
    if ltb 0 equals && only_spaces (drop equals s)
    then some 1
    else if ltb 0 dashes && only_spaces (drop dashes s)
    then some 2
    else none
