-- ===== src/Chunker/Bands/Rows.antt =====
-- The rows of the bands that rag/chunker.py makes of a table, and their sizes.
use hommey.Text.{Text, is_nonempty, empty_of}
use hommey.Chunker.Bands.{Banding, band_loop, band_rows, band_step, row_tokens}
use hommey.Prelude.{
  All, All-append, Bool-cases, List, [], append-nil, append_assoc, arith, concat, concat-append,
  inl, inr, length, ltb, refl, subst, true, ℕ, ◌++◌, ◌+◌, ◌∷◌, ◌≡◌, ◌≤◌, ◌⊎◌,
}

abbrev pub rows_tokens : List (List Text) → ℕ
rows_tokens [] = 0
rows_tokens (r ∷ rs) = row_tokens r + rows_tokens rs

-- A band that is over the budget is a single row.
abbrev pub Fits : ℕ → List (List Text) → Type 0
Fits max_tokens band = (rows_tokens band ≤ max_tokens) ⊎ (length band ≡ 1)

rows_tokens-append :
    (xs : List (List Text)) (r : List Text)
    → rows_tokens (xs ++ r ∷ []) ≡ rows_tokens xs + row_tokens r
rows_tokens-append [] r = omega arith
rows_tokens-append (x ∷ xs) r = omega (arith, rows_tokens-append xs r)

record IsBanding (max_tokens : ℕ) (st : Banding) (seen : List (List Text)) : Type 0 where
  kept : concat st.bands ++ st.current ≡ seen
  counted : st.current_tokens ≡ rows_tokens st.current
  fits : All (Fits max_tokens) st.bands
  nonempty : All (λ b. is_nonempty b ≡ true) st.bands
  open_fits : is_nonempty st.current ≡ true → Fits max_tokens st.current

band_step-IsBanding :
    (m : ℕ) (st : Banding) (seen : List (List Text)) (row : List Text)
    → IsBanding m st seen
    → IsBanding m (band_step m st row) (seen ++ row ∷ [])
unfolding band_step
band_step-IsBanding m st seen row h = elim (Bool-cases (is_nonempty st.current)) [
  | inr n ↦
      let e = empty_of st.current n in
      rw n (record {
        kept = rw (← h.kept) (simp (e, append-nil));
        counted = ground (arith, e, h.counted);
        fits = h.fits;
        nonempty = h.nonempty;
        open_fits = λ _. inr (ground (arith, e));
      })
  | inl n ↦ elim (Bool-cases (ltb m (st.current_tokens + row_tokens row))) [
    | inl b ↦
        rw (n, b)
          (record {
            kept = rw (← h.kept) (simp (concat-append, append-nil));
            counted = omega arith;
            fits = All-append (Fits m) st.bands st.current h.fits (h.open_fits n);
            nonempty = All-append (λ x. is_nonempty x ≡ true) st.bands st.current h.nonempty n;
            open_fits = λ _. inr refl;
          })
    | inr b ↦
        rw (n, b)
          (record {
            kept = rw (← h.kept) (simp append_assoc);
            counted = omega (arith, h.counted, rows_tokens-append st.current row);
            fits = h.fits;
            nonempty = h.nonempty;
            open_fits = λ _. inl (ground (arith, b, h.counted, rows_tokens-append st.current row));
          })
  ]
]

band_loop-IsBanding :
    (m : ℕ) (st : Banding) (seen rows : List (List Text))
    → IsBanding m st seen
    → IsBanding m (band_loop m st rows) (seen ++ rows)
unfolding band_loop
band_loop-IsBanding m st seen [] h = rw append-nil h
band_loop-IsBanding m st seen (row ∷ rows) h =
    subst (IsBanding m (band_loop m (band_step m st row) rows)) (append_assoc seen (row ∷ []) rows)
      (band_loop-IsBanding m (band_step m st row) (seen ++ row ∷ []) rows
        (band_step-IsBanding m st seen row h))

-- The bands of a table hold its rows in order, none is empty, and each keeps to the token budget
-- unless it is a single row.
pub band_rows_lem :
    (max_tokens : ℕ) (cells : List (List Text))
    → (concat (band_rows max_tokens cells) ≡ cells)
      × All (λ b. is_nonempty b ≡ true) (band_rows max_tokens cells)
      × All (Fits max_tokens) (band_rows max_tokens cells)
unfolding band_rows
band_rows_lem m cells =
    let start : Banding = record { bands = []; current = []; current_tokens = 0 } in
    let st = band_loop m start cells in
    let h =
      band_loop-IsBanding m start [] cells
        (record { kept = refl; counted = refl; fits = tt; nonempty = tt; open_fits = λ e. cc }) in
    elim (Bool-cases (is_nonempty st.current)) [
      | inl n ↦ rw n (
        simp (concat-append, append-nil) h.kept,
        All-append (λ x. is_nonempty x ≡ true) st.bands st.current h.nonempty n,
        All-append (Fits m) st.bands st.current h.fits (h.open_fits n),
      )
      | inr n ↦ rw n (rw (empty_of st.current n, append-nil) at h.kept, h.nonempty, h.fits)
    ]
