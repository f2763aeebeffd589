-- ===== src/Parsing/Kept.antt =====
-- rag/block_parser.py: the walker ends, and reads each line once.
use mathlib.Core.Option
use hommey.Headings.{HeadingStack}
use hommey.Chunker.Blocks.{BlockType, faq, table, list, paragraph, code}
use hommey.Parsing.Rules.{FileType, is_md, match_heading}
use hommey.Parsing.Lines.{
  continues_list, continues_paragraph, continues_table, is_blank, is_heading_line, is_list_item,
  is_question, read_code, read_faq, read_while, starts_bar, starts_fence,
}
use hommey.Parsing.Walk.{
  Entry, lines_of, opened, read_content, read_entry, read_registry, add_entries, added_by, atx_of,
  parse_blocks, underline, walk,
}
use hommey.Text.{Text, strip}
use hommey.Parsing.Headed.{IsRead, read_entry-IsRead}
use hommey.Prelude.{
  All, Bool, Bool-cases, List, Option, Option-cases, [], ap, arith, concat, drop, inl, inr, keep,
  length, map, not, refl, some, suc, sym, take, zero, ℕ, ◌&&◌, ◌++◌, ◌||◌, ◌∙◌, ◌∷◌, ◌≡◌, ◌≤◌,
}

-- The lines that are not blank.
abbrev pub full : List Text → List Text
full = keep (λ l. not (is_blank l))

full-append : (xs ys : List Text) → full (xs ++ ys) ≡ full xs ++ full ys
full-append [] ys = refl
full-append (x ∷ xs) ys = elim (Bool-cases (is_blank x)) [
  | inl b ↦ rw b (full-append xs ys)
  | inr b ↦ rw b (ap (λ t. x ∷ t) (full-append xs ys))
]

full-cons :
    (l : Text) (xs ys zs : List Text)
    → full xs ≡ full ys ++ full zs
    → full (l ∷ xs) ≡ full (l ∷ ys) ++ full zs
full-cons l xs ys zs h = elim (Bool-cases (is_blank l)) [
  | inl b ↦ rw b h
  | inr b ↦ rw b (ap (λ t. l ∷ t) h)
]

-- A reader takes lines from the front, and none that is not blank gets lost.
record Splits (ls : List Text) (r : List Text × List Text) : Type 0 where
  shorter : length r.1 ≤ length ls
  kept : full ls ≡ full r.0 ++ full r.1

stops : (ls : List Text) → Splits ls ([], ls)
stops ls = record { shorter = omega arith; kept = refl }

takes :
    (l : Text) (ls : List Text) (r : List Text × List Text)
    → Splits ls r
    → Splits (l ∷ ls) (l ∷ r.0, r.1)
takes l ls r s = record { shorter = omega (arith, s.shorter); kept = full-cons l ls r.0 r.1 s.kept }

read_while-Splits : (p : Text → Bool) (ls : List Text) → Splits ls (read_while p ls)
unfolding read_while
read_while-Splits p [] = stops []
read_while-Splits p (l ∷ ls) = elim (Bool-cases (p l)) [
  | inl b ↦ rw b (takes l ls (read_while p ls) (read_while-Splits p ls))
  | inr b ↦ rw b (stops (l ∷ ls))
]

read_code-Splits : (ls : List Text) → Splits ls (read_code ls)
unfolding read_code
read_code-Splits [] = stops []
read_code-Splits (l ∷ ls) = elim (Bool-cases (starts_fence (strip l))) [
  | inl b ↦ rw b (takes l ls ([], ls) (stops ls))
  | inr b ↦ rw b (takes l ls (read_code ls) (read_code-Splits ls))
]

read_faq-Splits : (t : FileType) (ls : List Text) → Splits ls (read_faq t ls)
unfolding read_faq
read_faq-Splits t [] = stops []
read_faq-Splits t (l ∷ ls) = elim (Bool-cases (is_blank l)) [
  | inl b ↦
      let s = read_faq-Splits t ls in
      rw b (record { shorter = omega (arith, s.shorter); kept = rw b s.kept })
  | inr b ↦
      elim (Bool-cases
        (is_question (strip l) || is_heading_line t (strip l) || starts_fence (strip l))) [
          | inl c ↦ rw (b, c) (stops (l ∷ ls))
          | inr c ↦ rw (b, c) (takes l ls (read_faq t ls) (read_faq-Splits t ls))
        ]
]

-- What a round reads are lines from the front.
record Reads (line : Text) (rest : List Text) (e : Entry × List Text) : Type 0 where
  smaller : length e.1 ≤ length rest
  read : full (line ∷ rest) ≡ full (lines_of e.0) ++ full e.1

added-Reads :
    (k : BlockType) (line : Text) (rest : List Text) (r : List Text × List Text)
    → Splits rest r
    → Reads line rest (added_by k line r)
added-Reads k line rest r s = record {
  smaller = s.shorter;
  read = full-cons line rest r.0 r.1 s.kept;
}

one_line : (line : Text) (rest : List Text) → full (line ∷ rest) ≡ full (line ∷ []) ++ full rest
one_line line rest = full-append (line ∷ []) rest

read_content-Reads :
    (t : FileType) (line : Text) (rest : List Text) → Reads line rest (read_content t line rest)
unfolding read_content
read_content-Reads t line rest = elim (Bool-cases (is_question (strip line))) [
  | inl a ↦ rw a (added-Reads faq line rest (read_faq t rest) (read_faq-Splits t rest))
  | inr a ↦ elim (Bool-cases (starts_bar (strip line) && is_md t)) [
    | inl b ↦ rw (a, b) (added-Reads table line rest _ (read_while-Splits continues_table rest))
    | inr b ↦ elim (Bool-cases (is_list_item (strip line))) [
      | inl c ↦
          rw (a, b, c) (added-Reads list line rest _ (read_while-Splits (continues_list t) rest))
      | inr c ↦
          rw (a, b, c)
            (added-Reads paragraph line rest _ (read_while-Splits (continues_paragraph t) rest))
    ]
  ]
]

read_registry-Reads :
    (t : FileType) (line : Text) (rest : List Text) → Reads line rest (read_registry t line rest)
unfolding read_registry
read_registry-Reads t line rest = elim (Option-cases (match_heading line t)) [
  | inl n ↦ rw (n, read_registry) (read_content-Reads t line rest)
  | inr h ↦ rw (h.1, read_registry) (record { smaller = omega arith; read = one_line line rest })
]

underlined-Reads :
    (level : ℕ) (name : Text) (line : Text) (rest : List Text)
    → Reads line rest (opened level name name (line ∷ take 1 rest), drop 1 rest)
underlined-Reads level name line [] = record { smaller = omega arith; read = one_line line [] }
underlined-Reads level name line (l ∷ rest) = record {
  smaller = omega arith;
  read = full-append (line ∷ l ∷ []) rest;
}

read_entry-Reads :
    (t : FileType) (line : Text) (rest : List Text) → Reads line rest (read_entry t line rest)
unfolding read_entry
read_entry-Reads t line rest = elim (Option-cases (atx_of t (strip line))) [
  | inr h ↦ rw (h.1, read_entry) (record { smaller = omega arith; read = one_line line rest })
  | inl a ↦ elim (Option-cases (underline t rest)) [
    | inr u ↦ rw (a, u.1, read_entry) (underlined-Reads u.0 (strip line) line rest)
    | inl b ↦ elim (Bool-cases (starts_fence (strip line))) [
      | inl c ↦
          rw (a, b, c, read_entry)
            (added-Reads code line rest (read_code rest) (read_code-Splits rest))
      | inr c ↦ rw (a, b, c, read_entry) (read_registry-Reads t line rest)
    ]
  ]
]

abbrev pub full_lines : List Entry → List Text
full_lines es = concat (map (λ e. full (lines_of e)) es)

-- Enough fuel is the number of lines.
walk-full :
    (fuel : ℕ) (t : FileType) (lines : List Text)
    → length lines ≤ fuel
    → (es : List Entry) × (walk fuel t lines ≡ some es)
      × (full lines ≡ full_lines es)
      × All (IsRead t) es
unfolding walk
walk-full zero t [] h = ([], refl, refl, tt)
walk-full (suc fuel) t [] h = ([], refl, refl, tt)
walk-full zero t (line ∷ rest) h = absurd (omega (arith, h))
walk-full (suc fuel) t (line ∷ rest) h =
    let e = read_entry t line rest in
    let r = read_entry-Reads t line rest in
    elim (Bool-cases (is_blank line)) [
      | inl b ↦
          let (es, w, k, p) = walk-full fuel t rest (omega (arith, h)) in (es, rw b w, rw b k, p)
      | inr b ↦
          let (es, w, k, p) = walk-full fuel t e.1 (omega (arith, h, r.smaller)) in
          (
            e.0 ∷ es,
            rw b (ap (Option.map (λ xs. e.0 ∷ xs)) w),
            r.read ∙ ap (λ xs. full (lines_of e.0) ++ xs) k,
            (read_entry-IsRead t line rest, p),
          )
    ]

-- The entries of a page.
pub parse_blocks-entries :
    (lines : List Text) (page : Option ℕ) (t : FileType) (stack : HeadingStack)
    → (es : List Entry) × (parse_blocks lines page t stack ≡ some (add_entries page 0 stack es))
      × (full_lines es ≡ full lines)
      × All (IsRead t) es
unfolding parse_blocks
parse_blocks-entries lines page t stack =
    let (es, w, k, p) = walk-full (length lines) t lines (omega arith) in
    (es, ap (Option.map (add_entries page 0 stack)) w, sym k, p)
