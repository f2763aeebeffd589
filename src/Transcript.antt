-- ===== src/Transcript.antt =====
-- agent_runtime/context_window.py: the dialogue that a model is shown.
mod Pairing
mod Users
mod Stable
mod Window
mod Tests
use hommey.Text.{is_nonempty}
use hommey.Prelude.{
  Bool, List, String, [], elem, false, if◌then◌else◌, length, map, not, suc, true, zero, ℕ, ◌&&◌,
  ◌++◌, ◌==◌, ◌∷◌, String_eq, ℕ_eq,
}

pub data Role : Type 0 where
  user assistant tool other : Role

-- A stored message: `calls` are the ids of its `tool_calls`.
pub record Message : Type 0 where
  pub role : Role
  pub content : String
  pub calls : List String
  pub tool_call_id : String
  pub result_ids : List String

abbrev pub is_tool : Role → Bool
is_tool tool = true
is_tool _ = false

abbrev pub is_user : Role → Bool
is_user user = true
is_user _ = false

abbrev pub is_assistant : Role → Bool
is_assistant assistant = true
is_assistant _ = false

-- role in {"user", "assistant"}, the roles that the loop goes on with
abbrev pub speaks : Role → Bool
speaks user = true
speaks assistant = true
speaks _ = false

-- The copy of a message of the dialogue; only the assistant's keeps its result ids.
abbrev pub copied : Message → Message
copied m = record m {
  tool_call_id = "";
  result_ids = (if is_assistant m.role then m.result_ids else []);
}

-- The copy of a tool's message.
abbrev pub copied_result : Message → Message
copied_result m = record m { calls = []; result_ids = [] }

-- {"role": "assistant", "content": message["content"]}
abbrev pub prose : String → Message
prose content = record {
  role = assistant;
  content = content;
  calls = [];
  tool_call_id = "";
  result_ids = [];
}

-- The run of tool messages at the front, and what follows it.
pub tools_first : List Message → List Message
tools_first [] = []
tools_first (m ∷ ms) = if is_tool m.role then m ∷ tools_first ms else []

pub after_tools : List Message → List Message
after_tools [] = []
after_tools (m ∷ ms) = if is_tool m.role then after_tools ms else m ∷ ms

-- len(ids) == len(set(ids))
abbrev pub distinct : List String → Bool
distinct [] = true
distinct (x ∷ xs) = not (elem x xs) && distinct xs

abbrev without : String → List String → List String
without x [] = []
without x (y ∷ ys) = if y == x then ys else y ∷ without x ys

-- sorted(xs) == sorted(ys)
abbrev pub same_items : List String → List String → Bool
same_items [] ys = not (is_nonempty ys)
same_items (x ∷ xs) ys = elem x ys && same_items xs (without x ys)

abbrev pub answered : Message → List Message → Bool
answered m batch = distinct m.calls && same_items m.calls (map (λ r. r.tool_call_id) batch)

-- The loop of `settled_messages`; each round takes a message at least.
pub settle : ℕ → List Message → List Message
unfolding tools_first after_tools
settle zero rows = []
settle (suc fuel) [] = []
settle (suc fuel) (row ∷ rows) =
    let next = settle fuel rows in
    let later = settle fuel (after_tools rows) in
    let batch = tools_first rows in
    if not (speaks row.role)
    then next
    else if is_nonempty row.calls
    then (if answered row batch
        then copied row ∷ map copied_result batch ++ later
        else if row.content == ""
        then later
        else prose row.content ∷ later)
    else copied row ∷ next

pub settled_messages : List Message → List Message
unfolding settle
settled_messages rows = settle (length rows) rows
