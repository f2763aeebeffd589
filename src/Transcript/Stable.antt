-- ===== src/Transcript/Stable.antt =====
-- The dialogue of agent_runtime/context_window.py, settled a second time.
use hommey.Transcript.{
  Message, after_tools, answered, copied, copied_result, is_assistant, is_tool, settle, speaks,
  tools_first, prose, settled_messages,
}
use hommey.Text.{is_nonempty}
use hommey.Transcript.Pairing.{ids-copied, tools_first-All}
use hommey.Prelude.{
  All, Bool-cases, List, [], ap, arith, false, inl, inr, length, length-append, map, refl, suc,
  true, zero, ℕ, ◌++◌, ◌==◌, ◌∙◌, ◌∷◌, ◌≡◌, ◌≤◌, String_eq, ℕ_eq,
}

settle-quiet : (fuel : ℕ) (rows : List Message) → tools_first (settle fuel rows) ≡ []
unfolding settle tools_first
settle-quiet zero rows = refl
settle-quiet (suc fuel) [] = refl
settle-quiet (suc fuel) (row ∷ rows) = elim (Bool-cases (speaks row.role)) [
  | inr s ↦ rw s (settle-quiet fuel rows)
  | inl s ↦
      let t : is_tool row.role ≡ false = ground (arith, s) in
      elim (Bool-cases (is_nonempty row.calls)) [
        | inr c ↦ rw (s, c, t)
        | inl c ↦ elim (Bool-cases (answered row (tools_first rows))) [
          | inl a ↦ rw (s, c, a, t)
          | inr a ↦ elim (Bool-cases (row.content == "")) [
            | inl e ↦ rw (s, c, a, e) (settle-quiet fuel (after_tools rows))
            | inr e ↦ rw (s, c, a, e) refl
          ]
        ]
      ]
]

batch-tools_first :
    (batch later : List Message)
    → All (λ r. is_tool r.role ≡ true) batch
    → tools_first later ≡ []
    → (tools_first (batch ++ later) ≡ batch) × (after_tools (batch ++ later) ≡ later)
unfolding tools_first after_tools
batch-tools_first [] [] h q = (refl, refl)
batch-tools_first [] (m ∷ ms) h q = elim (Bool-cases (is_tool m.role)) [
  | inl b ↦ ground (arith, b, q)
  | inr b ↦ (rw b refl, rw b refl)
]
batch-tools_first (r ∷ batch) later h q =
    let (f, a) = batch-tools_first batch later h.1 q in (rw h.0 (ap (λ t. r ∷ t) f), rw h.0 a)

copied-copied : (m : Message) → copied (copied m) ≡ copied m
copied-copied m = elim (Bool-cases (is_assistant m.role)) [ inl b ↦ rw b refl | inr b ↦ rw b refl ]

results-copied :
    (ms : List Message) → map copied_result (map copied_result ms) ≡ map copied_result ms
results-copied [] = refl
results-copied (m ∷ ms) = ap (λ t. copied_result m ∷ t) (results-copied ms)

settle-keeps :
    (n : ℕ) (m : Message) (ms : List Message)
    → speaks m.role ≡ true
    → is_nonempty m.calls ≡ false
    → settle (suc n) (m ∷ ms) ≡ copied m ∷ settle n ms
unfolding settle
settle-keeps n m ms s c = rw (s, c) refl

settle-batch :
    (n : ℕ) (m : Message) (batch later : List Message)
    → speaks m.role ≡ true
    → is_nonempty m.calls ≡ true
    → answered m batch ≡ true
    → All (λ r. is_tool r.role ≡ true) batch
    → tools_first later ≡ []
    → settle (suc n) (m ∷ batch ++ later) ≡ copied m ∷ map copied_result batch ++ settle n later
unfolding settle
settle-batch n m batch later s c a h q =
    let (f, g) = batch-tools_first batch later h q in rw (s, c, f, g, a) refl

-- `ms` is its own dialogue, with enough fuel.
abbrev Fixed : List Message → Type 0
Fixed ms = (m : ℕ) → length ms ≤ m → settle m ms ≡ ms

Fixed-empty : Fixed []
unfolding settle
Fixed-empty zero l = refl
Fixed-empty (suc m) l = refl

Fixed-keeps :
    (c : Message) (ms : List Message)
    → speaks c.role ≡ true
    → is_nonempty c.calls ≡ false
    → copied c ≡ c
    → Fixed ms
    → Fixed (c ∷ ms)
Fixed-keeps c ms s n k f zero l = absurd (omega (arith, l))
Fixed-keeps c ms s n k f (suc m) l =
    settle-keeps m c ms s n ∙ ap (λ x. x ∷ settle m ms) k ∙ ap (λ t. c ∷ t) (f m (omega (arith, l)))

Fixed-batch :
    (c : Message) (batch later : List Message)
    → speaks c.role ≡ true
    → is_nonempty c.calls ≡ true
    → answered c batch ≡ true
    → All (λ r. is_tool r.role ≡ true) batch
    → copied c ≡ c
    → map copied_result batch ≡ batch
    → tools_first later ≡ []
    → Fixed later
    → Fixed (c ∷ batch ++ later)
Fixed-batch c batch later s n a h k r q f zero l = absurd (omega (arith, l))
Fixed-batch c batch later s n a h k r q f (suc m) l =
    settle-batch m c batch later s n a h q
    ∙ ap (λ x. x ∷ map copied_result batch ++ settle m later) k
    ∙ ap (λ t. c ∷ t ++ settle m later) r
    ∙ ap (λ t. c ∷ batch ++ t) (f m (omega (arith, l, length-append batch later)))

settle-Fixed : (n : ℕ) (rows : List Message) → Fixed (settle n rows)
unfolding settle
settle-Fixed zero rows = Fixed-empty
settle-Fixed (suc n) [] = Fixed-empty
settle-Fixed (suc n) (row ∷ rows) = elim (Bool-cases (speaks row.role)) [
  | inr s ↦ rw s (settle-Fixed n rows)
  | inl s ↦ elim (Bool-cases (is_nonempty row.calls)) [
    | inr c ↦
        rw (s, c)
          (Fixed-keeps (copied row) (settle n rows) s c (copied-copied row) (settle-Fixed n rows))
    | inl c ↦
        let later = settle-Fixed n (after_tools rows) in
        elim (Bool-cases (answered row (tools_first rows))) [
          | inl a ↦
              rw (s, c, a)
                (Fixed-batch (copied row) (map copied_result (tools_first rows))
                  (settle n (after_tools rows)) s c (rw ids-copied a) (tools_first-All rows)
                  (copied-copied row) (results-copied (tools_first rows))
                  (settle-quiet n (after_tools rows)) later)
          | inr a ↦ elim (Bool-cases (row.content == "")) [
            | inl e ↦ rw (s, c, a, e) later
            | inr e ↦
                rw (s, c, a, e)
                  (Fixed-keeps (prose row.content) (settle n (after_tools rows)) refl refl refl
                    later)
          ]
        ]
  ]
]

-- A dialogue that is settled again does not change.
pub settled_messages-settled :
    (rows : List Message) → settled_messages (settled_messages rows) ≡ settled_messages rows
unfolding settled_messages
settled_messages-settled rows =
    settle-Fixed (length rows) rows (length (settle (length rows) rows)) (omega arith)
