-- ===== src/Transcript/Tests.antt =====
-- A dialogue of agent_runtime/context_window.py, and the theorems about it.
use hommey.Transcript.Window.{conversation_window, current_rows, turns}
use hommey.Transcript.Window.Bounds.{Ends, conversation_window_lem, last_exchange}
use hommey.Transcript.{Message, Role, assistant, settled_messages, tool, user}
use hommey.Transcript.Pairing.{Paired, settled_messages-Paired}
use hommey.Prelude.{List, String, [], length, refl, true, ◌∷◌, ◌≡◌, ◌≤◌, ◌⊎◌}

abbrev said : Role → String → Message
said role content = record {
  role = role;
  content = content;
  calls = [];
  tool_call_id = "";
  result_ids = [];
}

-- an answered call, an orphan result, a call without its result
abbrev stored : List Message
stored =
    said user "To Oslo"
    ∷ record (said assistant "") { calls = "call_1" ∷ [] }
    ∷ record (said tool "12:05") { tool_call_id = "call_1" }
    ∷ said assistant "There is a train at noon"
    ∷ record (said tool "?") { tool_call_id = "call_9" }
    ∷ record (said assistant "Looking") { calls = "call_2" ∷ [] }
    ∷ said user "And back"
    ∷ []

settled_messages_run : length (settled_messages stored) ≡ 6
unfolding settled_messages
settled_messages_run = refl

settled_messages-Paired_example : Paired (settled_messages stored)
settled_messages-Paired_example = settled_messages-Paired stored

conversation_window_run :
    length (conversation_window (λ ms. length ms) 3 stored "And back, too" true) ≡ 6
unfolding conversation_window
conversation_window_run = refl

conversation_window_lem_example :
    Ends
      (current_rows stored "And back, too" true)
      (conversation_window (λ ms. length ms) 3 stored "And back, too" true)
    × ((conversation_window (λ ms. length ms) 3 stored "And back, too" true
          ≡ last_exchange
              (current_rows stored "And back, too" true)
              (turns (current_rows stored "And back, too" true)))
        ⊎ (length (conversation_window (λ ms. length ms) 3 stored "And back, too" true) ≤ 3))
conversation_window_lem_example =
    conversation_window_lem (λ ms. length ms) 3 stored "And back, too" true
