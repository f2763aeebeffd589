-- ===== src/Chunker/Units/Kept.antt =====
-- The blocks of a page of rag/chunker.py that its merge units hold.
use hommey.Chunker.Blocks.{Block, has_content}
use hommey.Chunker.Units.{
  MergeUnit, attach_from, attach_heading_only_units, attach_leading, build_units, grouped,
  is_heading_only, merge_short_units,
}
use hommey.Chunker.Units.Order.{flat, flat-attach_from, flat-grouped, flat-merge_short_units}
use hommey.Chunker.Units.Content.{
  HasContent, IsNonempty, attach_from-TailContent, attach_leading-HasContent, grouped-IsNonempty,
  has_content-append, headings_lem,
}
use hommey.Text.{is_nonempty}
use hommey.Prelude.{
  All, Bool-cases, List, [], ap, append_assoc, arith, false, if◌then◌else◌, inl, inr, refl, true, ℕ,
  ◌∙◌, ◌∷◌, ◌≡◌,
}

flat-attach_leading :
    (us : List MergeUnit) → has_content (flat us) ≡ true → flat (attach_leading us) ≡ flat us
unfolding attach_leading
flat-attach_leading [] h = refl
flat-attach_leading (u ∷ []) h = elim (Bool-cases (is_heading_only u)) [
  | inl k ↦ ground (arith, h, k, headings_lem u.blocks, has_content-append u.blocks [])
  | inr k ↦ rw k
]
flat-attach_leading (u ∷ v ∷ us) h = elim (Bool-cases (is_heading_only u)) [
  | inl k ↦ rw k (append_assoc u.blocks v.blocks (flat us))
  | inr k ↦ rw k
]

flat-attach :
    (us : List MergeUnit)
    → has_content (flat us) ≡ true
    → flat (attach_heading_only_units us) ≡ flat us
unfolding attach_heading_only_units
flat-attach [] h = refl
flat-attach (u ∷ us) h =
    flat-attach_leading (attach_from u us) (rw (flat-attach_from u us) h) ∙ flat-attach_from u us

flat-empty : (us : List MergeUnit) → All HasContent us → has_content (flat us) ≡ false → us ≡ []
flat-empty [] a h = refl
flat-empty (u ∷ us) a h = ground (arith, a.0, h, has_content-append u.blocks (flat us))

headings-attach_leading :
    (us : List MergeUnit)
    → has_content (flat us) ≡ false
    → has_content (flat (attach_leading us)) ≡ false
unfolding attach_leading
headings-attach_leading [] h = refl
headings-attach_leading (u ∷ []) h = elim (Bool-cases (is_heading_only u)) [
  | inl k ↦ rw k
  | inr k ↦ rw k h
]
headings-attach_leading (u ∷ v ∷ us) h = elim (Bool-cases (is_heading_only u)) [
  | inl k ↦ rw k (rw (append_assoc u.blocks v.blocks (flat us)) h)
  | inr k ↦ rw k h
]

headings-attach :
    (us : List MergeUnit)
    → All IsNonempty us
    → has_content (flat us) ≡ false
    → attach_heading_only_units us ≡ []
unfolding attach_heading_only_units
headings-attach [] a h = refl
headings-attach (u ∷ us) a h =
    flat-empty (attach_leading (attach_from u us))
      (attach_leading-HasContent (attach_from u us) (attach_from-TailContent u us a.0 a.1).0)
      (headings-attach_leading (attach_from u us) (rw (flat-attach_from u us) h))

is_nonempty-flat : (us : List MergeUnit) → has_content (flat us) ≡ true → is_nonempty us ≡ true
is_nonempty-flat [] h = absurd (ground (arith, h))
is_nonempty-flat (u ∷ us) h = refl

merge_short_units-nil : (m : ℕ) → merge_short_units m [] ≡ []
unfolding merge_short_units
merge_short_units-nil m = refl

-- The merge units of a page with some content hold exactly its blocks, in the page's order, and there
-- is at least one; a page without content, of headings alone or of nothing, has no unit at all.
pub build_units_keep_blocks :
    (max_tokens : ℕ) (blocks : List Block)
    → (flat (build_units max_tokens blocks) ≡ (if has_content blocks then blocks else []))
      × (is_nonempty (build_units max_tokens blocks) ≡ has_content blocks)
unfolding build_units
build_units_keep_blocks m blocks = elim (Bool-cases (has_content blocks)) [
  | inl h ↦
      let k : flat (build_units m blocks) ≡ blocks =
        flat-merge_short_units m (attach_heading_only_units (grouped blocks))
        ∙ flat-attach (grouped blocks) (rw flat-grouped h)
        ∙ flat-grouped blocks in
      rw h (k, is_nonempty-flat (build_units m blocks) (rw k h))
  | inr h ↦
      let none_left : build_units m blocks ≡ [] =
        ap (merge_short_units m)
          (headings-attach (grouped blocks) (grouped-IsNonempty blocks) (rw flat-grouped h))
        ∙ merge_short_units-nil m in
      rw h (ap flat none_left, ap is_nonempty none_left)
]
