-- ===== src/Chunker/Bands.antt =====
-- rag/chunker.py: an overlong table in bands of rows.
pub mod Rows
pub mod Windows
use hommey.Text.{Text, codes, is_nonempty, join, decimal}
use hommey.Chunker.Blocks.{Block, TableData, table, token_count}
use hommey.Prelude.{
  List, [], any, if◌then◌else◌, keep, leb, length, ltb, map, none, some, ℕ, ◌&&◌, ◌++◌, ◌+◌, ◌-◌,
  ◌∷◌,
}

-- `render_cells` of rag/structured_parser.py, over cells that are texts already
abbrev cell_sep : Text
cell_sep = 32 ∷ b'|' ∷ 32 ∷ []

unfoldable pub render_cells : List (List Text) → Text
unfolding join
render_cells cells = join (10 ∷ []) (map (join cell_sep) (keep (λ row. any is_nonempty row) cells))

pub record Banding : Type 0 where
  pub bands : List (List (List Text))
  pub current : List (List Text)
  pub current_tokens : ℕ

abbrev pub row_tokens : List Text → ℕ
row_tokens row = token_count (render_cells (row ∷ []))

pub band_step : ℕ → Banding → List Text → Banding
band_step max_tokens st row =
    if is_nonempty st.current && ltb max_tokens (st.current_tokens + row_tokens row)
    then record {
      bands = st.bands ++ st.current ∷ [];
      current = row ∷ [];
      current_tokens = row_tokens row;
    }
    else record st {
      current = st.current ++ row ∷ [];
      current_tokens = st.current_tokens + row_tokens row;
    }

pub band_loop : ℕ → Banding → List (List Text) → Banding
band_loop max_tokens st [] = st
band_loop max_tokens st (row ∷ rows) = band_loop max_tokens (band_step max_tokens st row) rows

unfoldable pub band_rows : ℕ → List (List Text) → List (List (List Text))
unfolding band_loop band_step token_count render_cells
band_rows max_tokens cells =
    let st = band_loop max_tokens (record { bands = []; current = []; current_tokens = 0 }) cells in
    if is_nonempty st.current then st.bands ++ st.current ∷ [] else st.bands

pub band_blocks : Block → TableData → ℕ → ℕ → ℕ → List (List (List Text)) → List Block
band_blocks b t total index offset [] = []
band_blocks b t total index offset (rows ∷ bands) =
    record b {
      block_id = b.block_id ++ (codes "-band" ++ decimal index);
      block_type = table;
      text = render_cells rows;
      table_data = some (record t {
        cells = rows;
        band = some (record {
          index = index;
          total = total;
          row_start = offset;
          row_end = offset + length rows - 1;
        });
      });
    }
    ∷ band_blocks b t total (index + 1) (offset + length rows) bands

unfoldable pub band_table_block : ℕ → Block → List Block
unfolding band_rows band_blocks render_cells decimal
band_table_block max_tokens b = elim b.table_data [
  | none ↦ b ∷ []
  | some t ↦
      let bands = band_rows max_tokens t.cells in
      if leb (length bands) 1 then b ∷ [] else band_blocks b t (length bands) 0 0 bands
]
