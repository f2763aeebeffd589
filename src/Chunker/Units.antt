-- ===== src/Chunker/Units.antt =====
-- rag/chunker.py: the merge units of a page.
pub mod Order
pub mod Content
pub mod Kept
pub mod Trailing
use mathlib.Core.List.{head?}
use hommey.Chunker.Blocks.{Block, block_tokens, is_atomic_block, is_heading}
use hommey.Text.{is_nonempty, Text, Text_eq}
use hommey.Prelude.{
  Bool, List, Option, [], all, false, if◌then◌else◌, leb, length, none, not, some, suc, true, zero,
  ℕ, ◌&&◌, ◌++◌, ◌+◌, ◌==◌, ◌∷◌, String_eq, ℕ_eq,
}

pub record MergeUnit : Type 0 where
  pub blocks : List Block
  pub atomic : Bool

-- `_Unit.parent_heading`
unfoldable pub parent_heading : List Block → Option Text
parent_heading [] = none
parent_heading (b ∷ bs) =
    if not (is_heading b.block_type) && is_nonempty b.heading_path
    then head? b.heading_path
    else parent_heading bs

abbrev pub unit_tokens : MergeUnit → ℕ
unit_tokens u = block_tokens u.blocks

-- The variables of the loop of `_build_units`.
pub record Building : Type 0 where
  pub units : List MergeUnit
  pub current : List Block
  pub has_content : Bool

abbrev unit_of : List Block → MergeUnit
unit_of bs = record { blocks = bs; atomic = false }

abbrev atom_of : Block → MergeUnit
atom_of b = record { blocks = b ∷ []; atomic = true }

pub build_step : Building → Block → Building
build_step st b =
    if is_heading b.block_type
    then (if st.has_content
        then record st {
          units = st.units ++ unit_of st.current ∷ [];
          current = b ∷ [];
          has_content = false;
        }
        else record st { current = st.current ++ b ∷ [] })
    else if is_atomic_block b.block_type
    then (if is_nonempty st.current
        then record st {
          units = (st.units ++ unit_of st.current ∷ []) ++ atom_of b ∷ [];
          current = [];
          has_content = false;
        }
        else record st { units = st.units ++ atom_of b ∷ [] })
    else record st { current = st.current ++ b ∷ []; has_content = true }

pub build_loop : Building → List Block → Building
build_loop st [] = st
build_loop st (b ∷ bs) = build_loop (build_step st b) bs

pub grouped : List Block → List MergeUnit
grouped blocks =
    let st = build_loop (record { units = []; current = []; has_content = false }) blocks in
    if is_nonempty st.current then st.units ++ unit_of st.current ∷ [] else st.units

-- `_is_heading_only`
abbrev pub is_heading_only : MergeUnit → Bool
is_heading_only u = is_nonempty u.blocks && all (λ b. is_heading b.block_type) u.blocks

-- The loop of `_attach_heading_only_units`, with the last unit of `result` at hand.
pub attach_from : MergeUnit → List MergeUnit → List MergeUnit
attach_from last [] = last ∷ []
attach_from last (u ∷ us) =
    let joined = attach_from (record last { blocks = last.blocks ++ u.blocks }) us in
    let kept = last ∷ attach_from u us in if is_heading_only u then joined else kept

-- A leading heading chain goes to the first unit with content; alone it is dropped.
pub attach_leading : List MergeUnit → List MergeUnit
attach_leading [] = []
attach_leading (u ∷ []) = if is_heading_only u then [] else u ∷ []
attach_leading (u ∷ v ∷ us) =
    if is_heading_only u then record v { blocks = u.blocks ++ v.blocks } ∷ us else u ∷ v ∷ us

pub attach_heading_only_units : List MergeUnit → List MergeUnit
attach_heading_only_units [] = []
attach_heading_only_units (u ∷ us) = attach_leading (attach_from u us)

-- left.parent_heading() == right.parent_heading()
abbrev same_heading : Option Text → Option Text → Bool
same_heading none none = true
same_heading (some a) (some b) = a == b
same_heading _ _ = false

unfoldable pub mergeable : ℕ → MergeUnit → MergeUnit → Bool
unfolding parent_heading
mergeable max_tokens left right =
    not left.atomic
    && not right.atomic
    && same_heading (parent_heading left.blocks) (parent_heading right.blocks)
    && leb (unit_tokens left + unit_tokens right) max_tokens

-- One round of the `while`: the first pair that fits is joined, `none` if there is none.
pub merge_once : ℕ → List MergeUnit → Option (List MergeUnit)
merge_once max_tokens [] = none
merge_once max_tokens (u ∷ []) = none
merge_once max_tokens (u ∷ v ∷ us) =
    if mergeable max_tokens u v
    then some (record u { blocks = u.blocks ++ v.blocks } ∷ us)
    else (elim (merge_once max_tokens (v ∷ us)) [ none ↦ none | some ws ↦ some (u ∷ ws) ])

-- Each round removes a unit, so the number of units bounds the rounds.
pub merge_loop : ℕ → ℕ → List MergeUnit → List MergeUnit
merge_loop zero max_tokens us = us
merge_loop (suc fuel) max_tokens us = elim (merge_once max_tokens us) [
  | none ↦ us
  | some ws ↦ merge_loop fuel max_tokens ws
]

pub merge_short_units : ℕ → List MergeUnit → List MergeUnit
unfolding merge_loop merge_once
merge_short_units max_tokens us = merge_loop (length us) max_tokens us

pub build_units : ℕ → List Block → List MergeUnit
unfolding grouped build_loop build_step attach_heading_only_units attach_leading attach_from
    merge_short_units
build_units max_tokens blocks =
    merge_short_units max_tokens (attach_heading_only_units (grouped blocks))
