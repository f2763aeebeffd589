-- ===== src/Parsing/Tests.antt =====
-- Small texts that rag/block_parser.py cuts into blocks.
use hommey.Parsing.Rules.{match_heading, docx, md, pdf, txt, atx, match_setext_underline}
use hommey.Text.{Text, codes, splitlines}
use hommey.Chunker.Blocks.{Block, paragraph}
use hommey.Parsing.Ids.{Distinct, parse_blocks-Distinct}
use hommey.Parsing.Walk.{parse_text_blocks, read_entry, add_entries, added, opened, parse_blocks}
use hommey.Parsing.Lines.{is_blank}
use hommey.Prelude.{List, Option, [], map, none, refl, some, ℕ, ◌++◌, ◌∷◌, ◌≡◌}

abbrev guide : Text
guide =
    codes "# Travel #"
    ++ 10
      ∷ (codes "Hotels"
          ++ 10
            ∷ (codes "---"
                ++ 10
                  ∷ (10
                      ∷ (codes "- a"
                          ++ 10
                            ∷ (codes "  more" ++ 10 ∷ (codes "plain" ++ 13 ∷ 10 ∷ codes "text"))))))

abbrev texts : Option (List Block × List (ℕ × Text)) → List Text
texts none = []
texts (some (bs, hs)) = map (λ b. b.text) bs

abbrev paths : Option (List Block × List (ℕ × Text)) → List (List Text)
paths none = []
paths (some (bs, hs)) = map (λ b. b.heading_path) bs

texts_run :
    texts (parse_text_blocks guide none md [])
    ≡ codes "Travel"
      ∷ codes "Hotels"
      ∷ (codes "- a" ++ 10 ∷ codes "  more")
      ∷ (codes "plain" ++ 10 ∷ codes "text")
      ∷ []
unfolding parse_text_blocks is_blank read_entry atx match_setext_underline match_heading
texts_run = refl

paths_run :
    paths (parse_text_blocks guide none md [])
    ≡ (codes "Travel" ∷ [])
      ∷ (codes "Travel" ∷ codes "Hotels" ∷ [])
      ∷ (codes "Travel" ∷ codes "Hotels" ∷ [])
      ∷ (codes "Travel" ∷ codes "Hotels" ∷ [])
      ∷ []
unfolding parse_text_blocks is_blank read_entry atx match_setext_underline match_heading
paths_run = refl

chapter : match_heading (codes " 第三章  住宿标准 ") pdf ≡ some (1, codes "住宿标准")
unfolding match_heading
chapter = refl

amount : match_heading (codes "12.5 元") txt ≡ none
unfolding match_heading
amount = refl

section : match_heading (codes "2. 交通") docx ≡ some (3, codes "交通")
unfolding match_heading
section = refl

item : match_heading (codes "（一）适用范围") txt ≡ some (2, codes "适用范围")
unfolding match_heading
item = refl

abbrev guide_lines : List Text
guide_lines = splitlines guide

abbrev two_lines : List Text
two_lines = codes "# A" ∷ codes "b" ∷ []

two_blocks : List Block × List (ℕ × Text)
two_blocks =
    add_entries (some 2) 0 []
      (opened 1 (codes "A") (codes "A") (codes "# A" ∷ []) ∷ added paragraph (codes "b" ∷ []) ∷ [])

two_blocks_run : parse_blocks two_lines (some 2) md [] ≡ some two_blocks
unfolding parse_blocks is_blank read_entry atx match_setext_underline match_heading two_blocks
two_blocks_run = refl

parse_blocks-Distinct_example : Distinct two_blocks.0
parse_blocks-Distinct_example =
    parse_blocks-Distinct two_lines (some 2) md [] two_blocks two_blocks_run
