-- ===== src/Transcript/Window.antt =====
-- agent_runtime/context_window.py: `conversation_window`, the part of the dialogue that fits.
pub mod Bounds
use hommey.Transcript.{Message, is_user, settled_messages, user}
use hommey.Prelude.{Bool, List, String, [], false, if◌then◌else◌, ltb, ℕ, ◌&&◌, ◌++◌, ◌∷◌}

abbrev last_is_user : List Message → Bool
last_is_user [] = false
last_is_user (m ∷ []) = is_user m.role
last_is_user (m ∷ n ∷ ms) = last_is_user (n ∷ ms)

abbrev with_last : String → List Message → List Message
with_last text [] = []
with_last text (m ∷ []) = record m { content = text } ∷ []
with_last text (m ∷ n ∷ ms) = m ∷ with_last text (n ∷ ms)

-- {"role": "user", "content": current_text}
abbrev question : String → Message
question text = record {
  role = user;
  content = text;
  calls = [];
  tool_call_id = "";
  result_ids = [];
}

-- The rows with the current input at their end.
unfoldable pub current_rows : List Message → String → Bool → List Message
unfolding settled_messages
current_rows rows current_text current_included =
    let settled = settled_messages rows in
    if current_included && last_is_user settled
    then with_last current_text settled
    else settled ++ question current_text ∷ []

-- The turns of the user, each with all that follows it, the last turn first.
pub turns : List Message → List (List Message)
turns [] = []
turns (m ∷ ms) = let rest = turns ms in if is_user m.role then rest ++ (m ∷ ms) ∷ [] else rest

-- The loop on the earlier turns.
pub extend_window : (List Message → ℕ) → ℕ → List Message → List (List Message) → List Message
extend_window encoded_size budget window [] = window
extend_window encoded_size budget window (t ∷ ts) =
    let more = extend_window encoded_size budget t ts in
    if ltb budget (encoded_size t) then window else more

abbrev pub window_from : (List Message → ℕ) → ℕ → List Message → List (List Message) → List Message
window_from encoded_size budget rows [] = rows
window_from encoded_size budget rows (t ∷ []) = rows
window_from encoded_size budget rows (t ∷ u ∷ ts) = extend_window encoded_size budget u ts

-- `encoded_size` is the length of the JSON text.
unfoldable pub conversation_window :
    (List Message → ℕ) → ℕ → List Message → String → Bool → List Message
unfolding current_rows turns extend_window
conversation_window encoded_size budget rows current_text current_included =
    let shown = current_rows rows current_text current_included in
    window_from encoded_size budget shown (turns shown)
