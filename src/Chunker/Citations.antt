-- ===== src/Chunker/Citations.antt =====
-- rag/chunker.py: the heading path and the table citation of a chunk.
pub mod Paths
use hommey.Chunker.Blocks.{Block, TableData, is_heading, table}
use hommey.Text.{Text, is_nonempty, Text_eq}
use hommey.Prelude.{
  Bool, List, Option, String, [], false, front, if◌then◌else◌, keep, length, map, max, min, none,
  not, some, suc, true, zero, ℕ, ◌&&◌, ◌++◌, ◌-◌, ◌==◌, ◌∷◌, String_eq, ℕ_eq,
}

-- path[:len(common)] == common
pub is_prefix : List Text → List Text → Bool
is_prefix [] path = true
is_prefix (x ∷ xs) [] = false
is_prefix (x ∷ xs) (y ∷ ys) = x == y && is_prefix xs ys

-- The `while` of `_heading_path`, which pops headings until a prefix is left; the length of the
-- prefix bounds its rounds.
pub shorten : ℕ → List Text → List Text → List Text
shorten zero common path = common
shorten (suc fuel) common path =
    let rest = shorten fuel (front common) path in
    if is_nonempty common && not (is_prefix common path) then rest else common

pub common_path : List Text → List (List Text) → List Text
unfolding shorten is_prefix
common_path common [] = common
common_path common (path ∷ paths) = common_path (shorten (length common) common path) paths

-- The heading paths of the blocks of content that have one.
abbrev pub content_paths : List Block → List (List Text)
content_paths blocks =
    map (λ b. b.heading_path)
      (keep (λ b. not (is_heading b.block_type) && is_nonempty b.heading_path) blocks)

abbrev pub common_of : List (List Text) → List Text
common_of [] = []
common_of (path ∷ paths) = common_path path paths

-- `_heading_path`
unfoldable pub heading_path : List Block → List Text
unfolding common_path
heading_path blocks = common_of (content_paths blocks)

-- `_effective_heading_path`
unfoldable pub effective_heading_path : List Block → List Text → List Text
unfolding heading_path
effective_heading_path blocks carried =
    if is_nonempty (content_paths blocks) then heading_path blocks else carried

-- `_page_open_stack`.
unfoldable pub page_open_stack : List Block → List Text → List Text
page_open_stack [] fallback = fallback
page_open_stack (b ∷ []) fallback =
    if is_heading b.block_type
    then b.heading_path ++ b.text ∷ []
    else if is_nonempty b.heading_path
    then b.heading_path
    else fallback
page_open_stack (b ∷ c ∷ bs) fallback = page_open_stack (c ∷ bs) fallback

-- The citation of the tables of a chunk; `col_start` is always 0. `col_end` starts at 0 and only
-- grows, so a difference below 0 does not count.
pub record Citation : Type 0 where
  pub sheet : Option String
  pub table_id : String
  pub row_start : ℕ
  pub row_end : ℕ
  pub col_end : ℕ

abbrev pub row_window : TableData → ℕ × ℕ
row_window t = elim t.band [ none ↦ (0, length t.cells - 1) | some b ↦ (b.row_start, b.row_end) ]

abbrev pub widest : List (List Text) → ℕ
widest [] = 0
widest (row ∷ rows) = max (length row) (widest rows)

-- The variables of the loop of `_table_citation`.
pub record Citing : Type 0 where
  pub sheet : Option String
  pub table_id : String
  pub rows : Option (ℕ × ℕ)
  pub col_end : ℕ

abbrev pub widen : Option (ℕ × ℕ) → ℕ × ℕ → ℕ × ℕ
widen none w = w
widen (some v) w = (min v.0 w.0, max v.1 w.1)

pub cite : Citing → TableData → Citing
cite c t =
    let named : Citing = record c {
      sheet = (elim c.sheet [ none ↦ t.sheet | some s ↦ some s ]);
      table_id = (if c.table_id == "" then t.table_id else c.table_id);
    } in
    if is_nonempty t.cells
    then record named {
      rows = some (widen c.rows (row_window t));
      col_end = max c.col_end (widest t.cells - 1);
    }
    else named

pub cite_all : Citing → List Block → Citing
unfolding cite
cite_all c [] = c
cite_all c (b ∷ bs) = elim b.block_type [
  | table ↦ elim b.table_data [ none ↦ cite_all c bs | some t ↦ cite_all (cite c t) bs ]
  | _ ↦ cite_all c bs
]

-- `_table_citation`
unfoldable pub table_citation : List Block → Option Citation
unfolding cite_all
table_citation blocks =
    let c = cite_all (record { sheet = none; table_id = ""; rows = none; col_end = 0 }) blocks in
    elim c.rows [
      | none ↦ none
      | some w ↦ some (record {
        sheet = c.sheet;
        table_id = c.table_id;
        row_start = w.0;
        row_end = w.1;
        col_end = c.col_end;
      })
    ]
