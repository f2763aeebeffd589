-- ===== src/Chunker/Splitting.antt =====
-- rag/chunker.py: how an overlong unit is split at blocks, at sentences and at table rows.
pub mod Order
pub mod Overlap
pub mod Trailing
use mathlib.Core.List.{flat_map, map}
use hommey.Text.{Text, is_nonempty, last_n, lstrip, strip}
use hommey.Chunker.Blocks.{
  Block, block_tokens, code, faq, has_content, is_heading, table, token_count,
}
use hommey.Chunker.Bands.{band_table_block}
use hommey.Prelude.{
  Bool, List, Option, [], if◌then◌else◌, keep, leb, ltb, max, none, not, or_else, some, ℕ, ◌&&◌,
  ◌*◌, ◌++◌, ◌+◌, ◌==◌, ◌||◌, ◌∷◌, String_eq, ℕ_eq,
}

-- The variables of the loop of `_split_unit`.
pub record Parting : Type 0 where
  pub parts : List (List Block)
  pub current : List Block
  pub current_tokens : ℕ

pub split_step : ℕ → Parting → Block → Parting
split_step max_tokens st b =
    let tokens = token_count b.text in
    if is_nonempty st.current
      && ltb max_tokens (st.current_tokens + tokens)
      && has_content st.current
    then record { parts = st.parts ++ st.current ∷ []; current = b ∷ []; current_tokens = tokens }
    else record st { current = st.current ++ b ∷ []; current_tokens = st.current_tokens + tokens }

pub split_loop : ℕ → Parting → List Block → Parting
split_loop max_tokens st [] = st
split_loop max_tokens st (b ∷ bs) = split_loop max_tokens (split_step max_tokens st b) bs

-- The parts at block boundaries, before `_split_part`.
pub split_blocks : ℕ → List Block → List (List Block)
unfolding split_loop split_step
split_blocks max_tokens bs =
    let st = split_loop max_tokens (record { parts = []; current = []; current_tokens = 0 }) bs in
    if is_nonempty st.current then st.parts ++ st.current ∷ [] else st.parts

-- [。！？!?；;]
unfoldable pub is_boundary : ℕ → Bool
is_boundary c =
    c == 0x3002 || c == 0xff01 || c == 0xff1f || c == b'!' || c == b'?' || c == 0xff1b || c == b';'

abbrev prepend : ℕ → List Text → List Text
prepend c [] = (c ∷ []) ∷ []
prepend c (p ∷ ps) = (c ∷ p) ∷ ps

-- `_SENTENCE_BOUNDARY_RE.split`: a cut after each boundary
pub split_sentences : Text → List Text
split_sentences [] = [] ∷ []
split_sentences (c ∷ s) =
    let rest = split_sentences s in if is_boundary c then (c ∷ []) ∷ rest else prepend c rest

-- The window from its last boundary on.
pub from_last_boundary : Text → Option Text
from_last_boundary [] = none
from_last_boundary (c ∷ s) = elim (from_last_boundary s) [
  | some t ↦ some t
  | none ↦ if is_boundary c then some (c ∷ s) else none
]

-- `_tail_overlap`
pub tail_overlap : Text → ℕ → Text
unfolding from_last_boundary is_boundary last_n lstrip
tail_overlap text overlap_tokens =
    let window = last_n (max 1 (overlap_tokens * 2)) text in
    lstrip (or_else (from_last_boundary window) window)

-- The variables of the loop of `_split_block_text`.
pub record Texting : Type 0 where
  pub parts : List Text
  pub current : Text
  pub current_tokens : ℕ

pub text_step : ℕ → ℕ → Texting → Text → Texting
unfolding tail_overlap token_count
text_step max_tokens overlap_tokens st sentence =
    let tokens = token_count sentence in
    if is_nonempty st.current && ltb max_tokens (st.current_tokens + tokens)
    then (let tail = tail_overlap st.current overlap_tokens in
        record {
          parts = st.parts ++ st.current ∷ [];
          current = tail ++ sentence;
          current_tokens = token_count tail + tokens;
        })
    else record st { current = st.current ++ sentence; current_tokens = st.current_tokens + tokens }

pub text_loop : ℕ → ℕ → Texting → List Text → Texting
unfolding text_step
text_loop max_tokens overlap_tokens st [] = st
text_loop max_tokens overlap_tokens st (s ∷ ss) =
    text_loop max_tokens overlap_tokens (text_step max_tokens overlap_tokens st s) ss

-- `_block_with_text`, which carries no table
abbrev pub block_with_text : Block → Text → Block
block_with_text b text = record b { text = text; table_data = none }

abbrev is_visible : Text → Bool
is_visible s = is_nonempty (strip s)

pub split_block_text : ℕ → ℕ → Block → List (List Block)
unfolding text_loop split_sentences is_boundary strip
split_block_text max_tokens overlap_tokens b =
    let sentences = keep is_visible (split_sentences b.text) in
    let st =
      text_loop max_tokens overlap_tokens (record { parts = []; current = []; current_tokens = 0 })
        sentences in
    let parts = if is_visible st.current then st.parts ++ st.current ∷ [] else st.parts in
    if is_nonempty sentences
    then map (λ p. block_with_text b (strip p) ∷ []) (keep is_visible parts)
    else (b ∷ []) ∷ []

-- `list(leading_headings) + piece if index == 0 else piece`
abbrev with_headings : List Block → List (List Block) → List (List Block)
with_headings hs [] = []
with_headings hs (p ∷ ps) = (hs ++ p) ∷ ps

abbrev headings_of : List Block → List Block
headings_of part = keep (λ b. is_heading b.block_type) part

-- The part, whose only block of content is `b`.
pub split_single : ℕ → ℕ → List Block → Block → List (List Block)
unfolding split_block_text band_table_block token_count
split_single max_tokens overlap_tokens part b =
    if leb (token_count b.text) max_tokens then part ∷ [] else (elim b.block_type [
      | table ↦ with_headings (headings_of part) (map (λ x. x ∷ []) (band_table_block max_tokens b))
      | code ↦ part ∷ []
      | faq ↦ part ∷ []
      | _ ↦ with_headings (headings_of part) (split_block_text max_tokens overlap_tokens b)
    ])

pub split_part : ℕ → ℕ → List Block → List (List Block)
unfolding split_single
split_part max_tokens overlap_tokens part = elim (keep (λ b. not (is_heading b.block_type)) part) [
  | [] ↦ part ∷ []
  | b ∷ rest ↦ if is_nonempty rest then part ∷ [] else split_single max_tokens overlap_tokens part b
]

pub split_unit : ℕ → ℕ → List Block → List (List Block)
unfolding split_part split_blocks token_count
split_unit max_tokens overlap_tokens bs =
    if leb (block_tokens bs) max_tokens
    then bs ∷ []
    else flat_map (split_part max_tokens overlap_tokens) (split_blocks max_tokens bs)
