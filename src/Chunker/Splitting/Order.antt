-- ===== src/Chunker/Splitting/Order.antt =====
-- The parts that rag/chunker.py makes of a unit at block boundaries: their blocks and sizes.
use hommey.Chunker.Blocks.{Block, block_tokens, has_content, token_count}
use hommey.Chunker.Splitting.{Parting, split_blocks, split_loop, split_step}
use hommey.Text.{is_nonempty, empty_of}
use hommey.Prelude.{
  All, All-append, All-front, Bool-cases, List, [], append-nil, append_assoc, arith, concat,
  concat-append, false, front, front-append, inl, inr, ltb, refl, subst, true, ℕ, ◌++◌, ◌+◌, ◌∷◌,
  ◌≡◌, ◌≤◌, ◌⊎◌,
}

block_tokens-append :
    (xs : List Block) (b : Block)
    → block_tokens (xs ++ b ∷ []) ≡ block_tokens xs + token_count b.text
block_tokens-append [] b = omega arith
block_tokens-append (x ∷ xs) b = omega (arith, block_tokens-append xs b)

-- A part that is over the budget is headings and one block after them.
abbrev pub PartFits : ℕ → List Block → Type 0
PartFits max_tokens part = (block_tokens part ≤ max_tokens) ⊎ (has_content (front part) ≡ false)

record IsParting (max_tokens : ℕ) (st : Parting) (seen : List Block) : Type 0 where
  kept : concat st.parts ++ st.current ≡ seen
  counted : st.current_tokens ≡ block_tokens st.current
  fits : All (PartFits max_tokens) st.parts
  contentful : All (λ p. has_content p ≡ true) st.parts
  open_fits : PartFits max_tokens st.current

split_step-IsParting :
    (m : ℕ) (st : Parting) (seen : List Block) (b : Block)
    → IsParting m st seen
    → IsParting m (split_step m st b) (seen ++ b ∷ [])
unfolding split_step
split_step-IsParting m st seen b h =
    let added : st.current_tokens + token_count b.text ≡ block_tokens (st.current ++ b ∷ []) =
      omega (arith, h.counted, block_tokens-append st.current b) in
    let joined : concat st.parts ++ (st.current ++ b ∷ []) ≡ seen ++ b ∷ [] =
      rw (← h.kept) (simp append_assoc) in
    let extend : PartFits m (st.current ++ b ∷ [])
        → IsParting m
            (record st {
              current = st.current ++ b ∷ [];
              current_tokens = st.current_tokens + token_count b.text;
            })
            (seen ++ b ∷ []) =
      λ f. record {
        kept = joined;
        counted = added;
        fits = h.fits;
        contentful = h.contentful;
        open_fits = f;
      } in
    elim (Bool-cases (has_content st.current)) [
      | inr c ↦ elim (Bool-cases (is_nonempty st.current)) [
        | inl n ↦ elim (Bool-cases (ltb m (st.current_tokens + token_count b.text))) [
          | inl o ↦ rw (n, o, c) (extend (inr (rw (front-append st.current b) c)))
          | inr o ↦ rw (n, o) (extend (inr (rw (front-append st.current b) c)))
        ]
        | inr n ↦ rw n (extend (inr (rw (front-append st.current b) c)))
      ]
      | inl c ↦ elim (Bool-cases (is_nonempty st.current)) [
        | inl n ↦ elim (Bool-cases (ltb m (st.current_tokens + token_count b.text))) [
          | inl o ↦
              rw (n, o, c)
                (record {
                  kept = rw (← h.kept) (simp (concat-append, append-nil));
                  counted = omega arith;
                  fits = All-append (PartFits m) st.parts st.current h.fits h.open_fits;
                  contentful =
                      All-append (λ p. has_content p ≡ true) st.parts st.current h.contentful c;
                  open_fits = inr refl;
                })
          | inr o ↦ rw (n, o) (extend (inl (ground (arith, o, added))))
        ]
        | inr n ↦ rw n (extend (inr (ground (arith, c, n, front-append st.current b))))
      ]
    ]

split_loop-IsParting :
    (m : ℕ) (st : Parting) (seen bs : List Block)
    → IsParting m st seen
    → IsParting m (split_loop m st bs) (seen ++ bs)
unfolding split_loop
split_loop-IsParting m st seen [] h = rw append-nil h
split_loop-IsParting m st seen (b ∷ bs) h =
    subst (IsParting m (split_loop m (split_step m st b) bs)) (append_assoc seen (b ∷ []) bs) (
      split_loop-IsParting m (split_step m st b) (seen ++ b ∷ []) bs
        (split_step-IsParting m st seen b h))

-- The parts of a unit hold its blocks in order, and a part that is over the token budget is a run of
-- headings followed by one block.
pub split_blocks_lem :
    (max_tokens : ℕ) (bs : List Block)
    → (concat (split_blocks max_tokens bs) ≡ bs)
      × All (PartFits max_tokens) (split_blocks max_tokens bs)
      × All (λ p. has_content p ≡ true) (front (split_blocks max_tokens bs))
unfolding split_blocks
split_blocks_lem m bs =
    let start : Parting = record { parts = []; current = []; current_tokens = 0 } in
    let st = split_loop m start bs in
    let h =
      split_loop-IsParting m start [] bs (record {
        kept = refl;
        counted = refl;
        fits = tt;
        contentful = tt;
        open_fits = inr refl;
      }) in
    elim (Bool-cases (is_nonempty st.current)) [
      | inl n ↦ rw n (
        simp (concat-append, append-nil) h.kept,
        All-append (PartFits m) st.parts st.current h.fits h.open_fits,
        rw (front-append st.parts st.current) h.contentful,
      )
      | inr n ↦ rw n (
        rw (empty_of st.current n, append-nil) at h.kept,
        h.fits,
        All-front (λ p. has_content p ≡ true) st.parts h.contentful,
      )
    ]
