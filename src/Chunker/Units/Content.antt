-- ===== src/Chunker/Units/Content.antt =====
-- The content of the merge units of rag/chunker.py, against the blocks of the page.
use hommey.Text.{is_nonempty}
use hommey.Chunker.Blocks.{Block, has_content, is_heading, is_atomic_block}
use hommey.Chunker.Units.{
  Building, MergeUnit, attach_from, attach_leading, is_heading_only, merge_loop, merge_once,
  mergeable, attach_heading_only_units, build_loop, build_step, build_units, grouped,
  merge_short_units,
}
use hommey.Prelude.{
  All, Bool-cases, List, Option-cases, [], all, arith, false, inl, inr, length, not, refl, some,
  subst, suc, true, zero, ℕ, ◌++◌, ◌||◌, ◌∷◌, ◌≡◌,
}

abbrev pub HasContent : MergeUnit → Type 0
HasContent u = has_content u.blocks ≡ true

abbrev pub IsNonempty : MergeUnit → Type 0
IsNonempty u = is_nonempty u.blocks ≡ true

pub has_content-append :
    (xs ys : List Block) → has_content (xs ++ ys) ≡ (has_content xs || has_content ys)
has_content-append [] ys = refl
has_content-append (x ∷ xs) ys = ground (arith, has_content-append xs ys)

pub headings_lem : (bs : List Block) → all (λ b. is_heading b.block_type) bs ≡ not (has_content bs)
headings_lem [] = refl
headings_lem (b ∷ bs) = ground (arith, headings_lem bs)

content_of : (u : MergeUnit) → IsNonempty u → is_heading_only u ≡ false → HasContent u
content_of u n h = ground (arith, headings_lem u.blocks)

nonempty_of : (bs : List Block) → has_content bs ≡ true → is_nonempty bs ≡ true
nonempty_of [] h = cc
nonempty_of (b ∷ bs) h = refl

nonempty-append : (xs ys : List Block) → is_nonempty xs ≡ true → is_nonempty (xs ++ ys) ≡ true
nonempty-append [] ys h = cc
nonempty-append (x ∷ xs) ys h = refl

-- Every unit but the first has content.
abbrev TailContent : List MergeUnit → Type 0
TailContent [] = Unit
TailContent (u ∷ us) = IsNonempty u × All HasContent us

pub attach_from-TailContent :
    (last : MergeUnit) (us : List MergeUnit)
    → IsNonempty last
    → All IsNonempty us
    → TailContent (attach_from last us) × (HasContent last → All HasContent (attach_from last us))
unfolding attach_from
attach_from-TailContent last [] n a = ((n, tt), λ c. (c, tt))
attach_from-TailContent last (u ∷ us) n a = elim (Bool-cases (is_heading_only u)) [
  | inl h ↦
      let (t, f) =
        attach_from-TailContent (record last { blocks = last.blocks ++ u.blocks }) us
          (nonempty-append last.blocks u.blocks n) a.1 in
      rw h (t, λ c. f (ground (arith, c, has_content-append last.blocks u.blocks)))
  | inr h ↦
      let (t, f) = attach_from-TailContent u us a.0 a.1 in
      let k = f (content_of u a.0 h) in rw h ((n, k), λ c. (c, k))
]

pub attach_leading-HasContent :
    (us : List MergeUnit) → TailContent us → All HasContent (attach_leading us)
unfolding attach_leading
attach_leading-HasContent [] t = tt
attach_leading-HasContent (u ∷ []) t = elim (Bool-cases (is_heading_only u)) [
  | inl h ↦ rw h tt
  | inr h ↦ rw h (content_of u t.0 h, tt)
]
attach_leading-HasContent (u ∷ v ∷ us) t = elim (Bool-cases (is_heading_only u)) [
  | inl h ↦ rw h (ground (arith, t.1.0, has_content-append u.blocks v.blocks), t.1.1)
  | inr h ↦ rw h (content_of u t.0 h, t.1)
]

merge_once-HasContent :
    (m : ℕ) (us ws : List MergeUnit)
    → merge_once m us ≡ some ws
    → All HasContent us
    → All HasContent ws
unfolding merge_once
merge_once-HasContent m [] ws e a = cc
merge_once-HasContent m (u ∷ []) ws e a = cc
merge_once-HasContent m (u ∷ v ∷ us) ws e a = elim (Bool-cases (mergeable m u v)) [
  | inl b ↦
      let k : record u { blocks = u.blocks ++ v.blocks } ∷ us ≡ ws = ground (arith, b, e) in
      subst (All HasContent) k (ground (arith, a.0, has_content-append u.blocks v.blocks), a.1.1)
  | inr b ↦ elim (Option-cases (merge_once m (v ∷ us))) [
    | inl n ↦ ground (arith, b, n, e)
    | inr (vs, n) ↦
        let k : u ∷ vs ≡ ws = ground (arith, b, n, e) in
        subst (All HasContent) k (a.0, merge_once-HasContent m (v ∷ us) vs n a.1)
  ]
]

merge_loop-HasContent :
    (fuel m : ℕ) (us : List MergeUnit) → All HasContent us → All HasContent (merge_loop fuel m us)
unfolding merge_loop
merge_loop-HasContent zero m us a = a
merge_loop-HasContent (suc fuel) m us a = elim (Option-cases (merge_once m us)) [
  | inl n ↦ rw (n, merge_loop) a
  | inr (ws, n) ↦
      rw (n, merge_loop) (merge_loop-HasContent fuel m ws (merge_once-HasContent m us ws n a))
]

-- The loop of `_build_units` closes no empty unit, and its flag says whether `current` has content.
record IsBuilding (st : Building) : Type 0 where
  closed : All IsNonempty st.units
  flagged : st.has_content ≡ has_content st.current

All-snoc :
    (us : List MergeUnit) (u : MergeUnit)
    → All IsNonempty us
    → IsNonempty u
    → All IsNonempty (us ++ u ∷ [])
All-snoc [] u a n = (n, tt)
All-snoc (v ∷ us) u a n = (a.0, All-snoc us u a.1 n)

build_step-IsBuilding : (st : Building) (b : Block) → IsBuilding st → IsBuilding (build_step st b)
unfolding build_step
build_step-IsBuilding st b h = elim (Bool-cases (is_heading b.block_type)) [
  | inl k ↦ elim (Bool-cases st.has_content) [
    | inl c ↦
        rw (k, c)
          (record {
            closed =
                All-snoc st.units _ h.closed
                  (nonempty_of st.current (ground (arith, c, h.flagged)));
            flagged = ground (arith, k);
          })
    | inr c ↦
        rw (k, c)
          (record {
            closed = h.closed;
            flagged = ground (arith, c, k, h.flagged, has_content-append st.current (b ∷ []));
          })
  ]
  | inr k ↦ elim (Bool-cases (is_atomic_block b.block_type)) [
    | inl a ↦ elim (Bool-cases (is_nonempty st.current)) [
      | inl n ↦
          rw (k, a, n)
            (record { closed = All-snoc _ _ (All-snoc st.units _ h.closed n) refl; flagged = refl })
      | inr n ↦
          rw (k, a, n) (record { closed = All-snoc st.units _ h.closed refl; flagged = h.flagged })
    ]
    | inr a ↦
        rw (k, a)
          (record {
            closed = h.closed;
            flagged = ground (arith, k, has_content-append st.current (b ∷ []));
          })
  ]
]

build_loop-IsBuilding :
    (st : Building) (bs : List Block) → IsBuilding st → IsBuilding (build_loop st bs)
unfolding build_loop
build_loop-IsBuilding st [] h = h
build_loop-IsBuilding st (b ∷ bs) h =
    build_loop-IsBuilding (build_step st b) bs (build_step-IsBuilding st b h)

pub grouped-IsNonempty : (blocks : List Block) → All IsNonempty (grouped blocks)
unfolding grouped
grouped-IsNonempty blocks =
    let start : Building = record { units = []; current = []; has_content = false } in
    let st = build_loop start blocks in
    let h = build_loop-IsBuilding start blocks (record { closed = tt; flagged = refl }) in
    elim (Bool-cases (is_nonempty st.current)) [
      | inl n ↦ rw n (All-snoc st.units _ h.closed n)
      | inr n ↦ rw n h.closed
    ]

attach-HasContent :
    (us : List MergeUnit) → All IsNonempty us → All HasContent (attach_heading_only_units us)
unfolding attach_heading_only_units
attach-HasContent [] a = tt
attach-HasContent (u ∷ us) a =
    attach_leading-HasContent (attach_from u us) (attach_from-TailContent u us a.0 a.1).0

-- Every merge unit of a page has a block that is no heading, whatever blocks the page has.
pub build_units_have_content :
    (max_tokens : ℕ) (blocks : List Block)
    → All (λ u. has_content u.blocks ≡ true) (build_units max_tokens blocks)
unfolding build_units merge_short_units
build_units_have_content m blocks =
    merge_loop-HasContent (length (attach_heading_only_units (grouped blocks))) m _
      (attach-HasContent (grouped blocks) (grouped-IsNonempty blocks))
