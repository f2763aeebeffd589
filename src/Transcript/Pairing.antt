-- ===== src/Transcript/Pairing.antt =====
-- Tool calls and their results in the dialogue of agent_runtime/context_window.py.
use hommey.Transcript.{
  Message, after_tools, answered, copied, copied_result, is_tool, prose, settle, settled_messages,
  speaks, tools_first,
}
use hommey.Text.{is_nonempty}
use hommey.Prelude.{
  All, Bool-cases, List, [], ap, false, inl, inr, length, map, refl, suc, true, zero, ℕ, ◌++◌, ◌==◌,
  ◌∷◌, ◌≡◌, String_eq, ℕ_eq,
}

-- A dialogue in which a message with calls is followed at once by its results, one for each of its
-- distinct call ids, and in which there is no other result.
pub data Paired : List Message → Type 0 where
  done : Paired []
  says :
      (m : Message) {ms : List Message}
      → speaks m.role ≡ true
      → is_nonempty m.calls ≡ false
      → Paired ms
      → Paired (m ∷ ms)
  asks :
      (m : Message) (batch : List Message) {ms : List Message}
      → speaks m.role ≡ true
      → All (λ r. is_tool r.role ≡ true) batch
      → answered m batch ≡ true
      → Paired ms
      → Paired (m ∷ batch ++ ms)

pub tools_first-All :
    (rows : List Message) → All (λ r. is_tool r.role ≡ true) (map copied_result (tools_first rows))
unfolding tools_first
tools_first-All [] = tt
tools_first-All (m ∷ ms) = elim (Bool-cases (is_tool m.role)) [
  | inl b ↦ rw b (b, tools_first-All ms)
  | inr b ↦ rw b tt
]

pub ids-copied :
    (batch : List Message)
    → map (λ r. r.tool_call_id) (map copied_result batch) ≡ map (λ r. r.tool_call_id) batch
ids-copied [] = refl
ids-copied (m ∷ ms) = ap (λ x. m.tool_call_id ∷ x) (ids-copied ms)

settle-Paired : (fuel : ℕ) (rows : List Message) → Paired (settle fuel rows)
unfolding settle
settle-Paired zero rows = done
settle-Paired (suc fuel) [] = done
settle-Paired (suc fuel) (row ∷ rows) = elim (Bool-cases (speaks row.role)) [
  | inr s ↦ rw s (settle-Paired fuel rows)
  | inl s ↦ elim (Bool-cases (is_nonempty row.calls)) [
    | inr c ↦ rw (s, c) (says (copied row) s c (settle-Paired fuel rows))
    | inl c ↦ elim (Bool-cases (answered row (tools_first rows))) [
      | inl a ↦
          rw (s, c, a)
            (asks (copied row) (map copied_result (tools_first rows)) s (tools_first-All rows)
              (rw ids-copied a) (settle-Paired fuel (after_tools rows)))
      | inr a ↦ elim (Bool-cases (row.content == "")) [
        | inl e ↦ rw (s, c, a, e) (settle-Paired fuel (after_tools rows))
        | inr e ↦
            rw (s, c, a, e)
              (says (prose row.content) refl refl (settle-Paired fuel (after_tools rows)))
      ]
    ]
  ]
]

-- Whatever messages are stored, the dialogue that is shown pairs every call with its result and has
-- no orphan result.
pub settled_messages-Paired : (rows : List Message) → Paired (settled_messages rows)
unfolding settled_messages
settled_messages-Paired rows = settle-Paired (length rows) rows
