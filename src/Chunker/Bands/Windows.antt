-- ===== src/Chunker/Bands/Windows.antt =====
-- The row windows that rag/chunker.py records for the bands of a table.
use hommey.Chunker.Bands.{band_blocks, band_rows, band_table_block}
use hommey.Chunker.Blocks.{Block, TableData}
use hommey.Chunker.Bands.Rows.{band_rows_lem}
use hommey.Text.{Text, is_nonempty}
use hommey.Prelude.{
  All, Bool-cases, List, [], ap, append-nil, append_assoc, arith, concat, drop, drop-length-append,
  inl, inr, leb, length, length-append, map, none, refl, some, take, take-length-append, true, ℕ,
  ◌++◌, ◌+◌, ◌-◌, ◌∙◌, ◌∷◌, ◌≡◌, ◌≤◌,
}

abbrev pub block_rows : Block → List (List Text)
block_rows b = elim b.table_data [ none ↦ [] | some t ↦ t.cells ]

-- The rows of a table that the window of the block cites, all of them without a window.
abbrev pub cited_rows : List (List Text) → Block → List (List Text)
cited_rows cells b = elim b.table_data [
  | none ↦ []
  | some t ↦ elim t.band [
    | none ↦ cells
    | some w ↦ take (w.row_end + 1 - w.row_start) (drop w.row_start cells)
  ]
]

length_of_nonempty : {A : Type 0} (xs : List A) → is_nonempty xs ≡ true → 1 ≤ length xs
length_of_nonempty [] h = cc
length_of_nonempty (x ∷ xs) h = omega arith

window_rows :
    {A : Type 0} (before rows after : List A)
    → is_nonempty rows ≡ true
    → take
        (length before + length rows - 1 + 1 - length before)
        (drop (length before) (before ++ (rows ++ after)))
      ≡ rows
window_rows before rows after n =
    let k : length before + length rows - 1 + 1 - length before ≡ length rows =
      omega (arith, length_of_nonempty rows n) in
    rw (k, drop-length-append before (rows ++ after), take-length-append rows after)

abbrev pub Cited : List (List Text) → Block → Type 0
Cited cells x = cited_rows cells x ≡ block_rows x

band_blocks-Cited :
    (b : Block) (t : TableData) (total index offset : ℕ) (before : List (List Text))
    (cells : List (List Text)) (bands : List (List (List Text)))
    → length before ≡ offset
    → before ++ concat bands ≡ cells
    → All (λ x. is_nonempty x ≡ true) bands
    → All (Cited cells) (band_blocks b t total index offset bands)
unfolding band_blocks
band_blocks-Cited b t total index offset before cells [] l e h = tt
band_blocks-Cited b t total index offset before cells (rows ∷ bands) l e h = (
  rw (← l, ← e) (window_rows before rows (concat bands) h.0),
  band_blocks-Cited b t total (index + 1) (offset + length rows) (before ++ rows) cells bands
      (omega (arith, l, length-append before rows)) (append_assoc before rows (concat bands) ∙ e)
      h.1,
)

band_blocks-rows :
    (b : Block) (t : TableData) (total index offset : ℕ) (bands : List (List (List Text)))
    → concat (map block_rows (band_blocks b t total index offset bands)) ≡ concat bands
unfolding band_blocks
band_blocks-rows b t total index offset [] = refl
band_blocks-rows b t total index offset (rows ∷ bands) =
    ap (λ r. rows ++ r) (band_blocks-rows b t total (index + 1) (offset + length rows) bands)

-- A table that is no band yet is cut into blocks that hold its rows in order, and the rows of each
-- block are those that its row window cites in the whole table.
pub band_table_block_lem :
    (max_tokens : ℕ) (b : Block) (t : TableData)
    → b.table_data ≡ some t
    → t.band ≡ none
    → (concat (map block_rows (band_table_block max_tokens b)) ≡ t.cells)
      × All (Cited t.cells) (band_table_block max_tokens b)
unfolding band_table_block
band_table_block_lem m b t e w =
    let bands = band_rows m t.cells in
    let k = band_rows_lem m t.cells in
    let uncut : cited_rows t.cells (record b { table_data = some t }) ≡ t.cells =
      ground (arith, w) in
    rw e (elim (Bool-cases (leb (length bands) 1)) [
      | inl l ↦ rw l (rw (append-nil t.cells), (uncut, tt))
      | inr l ↦ rw l (
        band_blocks-rows b t (length bands) 0 0 bands ∙ k.0,
        band_blocks-Cited b t (length bands) 0 0 [] t.cells bands refl k.0 k.1,
      )
    ])
