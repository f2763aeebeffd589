-- ===== src/Chunker/Tests.antt =====
-- Runs of rag/chunker.py on small documents, and the theorems about it at these.
use hommey.Chunker.Units.Kept.{build_units_keep_blocks}
use hommey.Chunker.Citations.{heading_path, table_citation}
use hommey.Chunker.Units.Order.{flat}
use hommey.Chunker.Splitting.Trailing.{page_parts, page_parts-trailing}
use hommey.Chunker.Blocks.{Block, BlockType, TableData, heading, paragraph, table, token_count}
use hommey.Chunker.Bands.{band_rows, band_table_block}
use hommey.Chunker.Splitting.{is_boundary, tail_overlap}
use hommey.Chunker.Bands.Windows.{Cited, band_table_block_lem, block_rows}
use hommey.Chunker.Splitting.Overlap.{tail_overlap-end}
use hommey.Text.{Text, codes, is_nonempty}
use hommey.Chunker.Units.{build_units}
use hommey.Prelude.{All, [], arith, concat, length, map, none, refl, some, true, ◌++◌, ◌∷◌, ◌≡◌}

abbrev block_of : BlockType → Text → Block
block_of k s = record {
  block_id = codes "b";
  block_type = k;
  text = s;
  level = 1;
  heading_path = codes "Travel" ∷ [];
  table_data = none;
}

abbrev title : Block
title = block_of heading (codes "Hotels")

abbrev prose : Block
prose = block_of paragraph (codes "Book a room; keep the bill; file it")

abbrev prices : TableData
prices = record {
  sheet = some "2026";
  table_id = "t1";
  cells =
      (codes "city" ∷ codes "limit" ∷ [])
      ∷ (codes "Rome" ∷ codes "120" ∷ [])
      ∷ (codes "Oslo" ∷ codes "180" ∷ [])
      ∷ [];
  band = none;
}

abbrev price_table : Block
price_table = record (block_of table (codes "prices")) { table_data = some prices }

-- two rows to a band
bands_run : map (λ rows. length rows) (band_rows 5 prices.cells) ≡ 2 ∷ 1 ∷ []
unfolding band_rows
bands_run = refl

band_table_block_lem_example :
    (concat (map block_rows (band_table_block 5 price_table)) ≡ prices.cells)
    × All (Cited prices.cells) (band_table_block 5 price_table)
band_table_block_lem_example = band_table_block_lem 5 price_table prices refl refl

semicolon : is_boundary b';' ≡ true
unfolding is_boundary
semicolon = refl

tail_overlap-end_example : tail_overlap (codes "Book a room" ++ b';' ∷ []) 40 ≡ b';' ∷ []
tail_overlap-end_example = tail_overlap-end (codes "Book a room") b';' 40 semicolon

build_units_keep_blocks_example :
    (flat (build_units 50 (title ∷ prose ∷ title ∷ price_table ∷ title ∷ []))
      ≡ title ∷ prose ∷ title ∷ price_table ∷ title ∷ [])
    × (is_nonempty (build_units 50 (title ∷ prose ∷ title ∷ price_table ∷ title ∷ [])) ≡ true)
build_units_keep_blocks_example =
    build_units_keep_blocks 50 (title ∷ prose ∷ title ∷ price_table ∷ title ∷ [])

prose_tokens : token_count prose.text ≡ 8
unfolding token_count
prose_tokens = refl

title_tokens : token_count title.text ≡ 1
unfolding token_count
title_tokens = refl

page_parts-trailing_example : page_parts 8 2 (prose ∷ title ∷ []) ≡ (prose ∷ []) ∷ (title ∷ []) ∷ []
page_parts-trailing_example =
    page_parts-trailing 8 2 prose title refl refl (omega (arith, prose_tokens))
      (omega (arith, prose_tokens, title_tokens))

abbrev clause : Block
clause = record prose { heading_path = codes "Travel" ∷ codes "Hotels" ∷ codes "Limits" ∷ [] }

abbrev sibling : Block
sibling = record prose { heading_path = codes "Travel" ∷ codes "Hotels" ∷ codes "Bills" ∷ [] }

heading_path_run :
    heading_path (title ∷ clause ∷ sibling ∷ []) ≡ codes "Travel" ∷ codes "Hotels" ∷ []
unfolding heading_path
heading_path_run = refl

-- the second of two bands cites its own row
table_citation_run :
    table_citation (
      record price_table {
        table_data = some (record prices {
          band = some (record { index = 1; total = 2; row_start = 2; row_end = 2 });
        });
      }
      ∷ [])
    ≡ some
        (record { sheet = some "2026"; table_id = "t1"; row_start = 2; row_end = 2; col_end = 1 })
unfolding table_citation
table_citation_run = refl
