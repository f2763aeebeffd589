-- ===== src/Transcript/Window/Bounds.antt =====
-- What the window of agent_runtime/context_window.py holds.
use hommey.Transcript.{Message, is_user}
use hommey.Transcript.Window.{conversation_window, current_rows, extend_window, turns, window_from}
use hommey.Prelude.{
  All, All-append, All-imp, Bool, Bool-cases, List, String, [], ap, arith, inl, inr, ltb, refl, ℕ,
  ◌++◌, ◌∷◌, ◌≡◌, ◌≤◌, ◌⊎◌,
}

-- The window is the end of the rows.
abbrev pub Ends : List Message → List Message → Type 0
Ends rows window = (before : List Message) × (before ++ window ≡ rows)

Ends-turns : (rows : List Message) → All (Ends rows) (turns rows)
unfolding turns
Ends-turns [] = tt
Ends-turns (m ∷ ms) =
    let rest = All-imp (turns ms) (λ t e. (m ∷ e.0, ap (λ x. m ∷ x) e.1)) (Ends-turns ms) in
    elim (Bool-cases (is_user m.role)) [
      | inl b ↦ rw b (All-append (Ends (m ∷ ms)) (turns ms) (m ∷ ms) rest ([], refl))
      | inr b ↦ rw b rest
    ]

-- A window other than the one it starts from is within the budget.
extend_window-lem :
    (size : List Message → ℕ) (budget : ℕ) (rows window : List Message) (ts : List (List Message))
    → Ends rows window
    → All (Ends rows) ts
    → Ends rows (extend_window size budget window ts)
      × ((extend_window size budget window ts ≡ window)
          ⊎ (size (extend_window size budget window ts) ≤ budget))
unfolding extend_window
extend_window-lem size budget rows window [] e a = (e, inl refl)
extend_window-lem size budget rows window (t ∷ ts) e a = elim (Bool-cases (ltb budget (size t))) [
  | inl b ↦ rw b (e, inl refl)
  | inr b ↦
      let (k, how) = extend_window-lem size budget rows t ts a.0 a.1 in
      rw b (k, elim how [ inl s ↦ inr (rw s (ground (arith, b))) | inr s ↦ inr s ])
]

-- The rows from the last turn but one on, all of them where there are fewer turns.
abbrev pub last_exchange : List Message → List (List Message) → List Message
last_exchange rows [] = rows
last_exchange rows (t ∷ []) = rows
last_exchange rows (t ∷ u ∷ ts) = u

window_from-lem :
    (size : List Message → ℕ) (budget : ℕ) (rows : List Message) (ts : List (List Message))
    → All (Ends rows) ts
    → Ends rows (window_from size budget rows ts)
      × ((window_from size budget rows ts ≡ last_exchange rows ts)
          ⊎ (size (window_from size budget rows ts) ≤ budget))
window_from-lem size budget rows [] a = (([], refl), inl refl)
window_from-lem size budget rows (t ∷ []) a = (([], refl), inl refl)
window_from-lem size budget rows (t ∷ u ∷ ts) a =
    extend_window-lem size budget rows u ts a.1.0 a.1.1

-- The window is the end of the dialogue with the current input; it is within the budget unless it
-- is just the last exchange, from the last turn but one of the user on.
pub conversation_window_lem :
    (size : List Message → ℕ) (budget : ℕ) (rows : List Message) (text : String) (included : Bool)
    → Ends (current_rows rows text included) (conversation_window size budget rows text included)
      × ((conversation_window size budget rows text included
            ≡ last_exchange
                (current_rows rows text included)
                (turns (current_rows rows text included)))
          ⊎ (size (conversation_window size budget rows text included) ≤ budget))
unfolding conversation_window
conversation_window_lem size budget rows text included =
    let shown = current_rows rows text included in
    window_from-lem size budget shown (turns shown) (Ends-turns shown)
