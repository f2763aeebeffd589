-- ===== src/Budget.antt =====
-- core/execution_budget.py: the counters that one request shares among its operations.
mod Bounds
mod Tests
use hommey.Prelude.{
  Bool, Dict, List, Option, String, [], if◌then◌else◌, insert, is_none, leb, lookup, none, or_else,
  some, ℕ, ◌&&◌, ◌+◌, ◌==◌, ◌∷◌, String_eq, ℕ_eq,
}

-- The Python text functions that the program leans on, `strip` and `lower` of `str`.
pub record TextOps : Type 0 where
  pub strip : String → String
  pub lower : String → String

-- `ExecutionLimitExceeded`, by its `code`
pub data Limit : Type 0 where
  agent_call_limit_exceeded external_call_limit_exceeded external_call_type_limit_exceeded : Limit

pub record ExecutionBudget : Type 0 where
  pub max_agent_calls : ℕ
  pub max_external_calls : ℕ
  pub max_external_calls_per_type : ℕ
  pub agent_calls : ℕ
  pub external_calls : ℕ
  pub calls_by_type : Dict ℕ

-- the defaults of the dataclass
abbrev pub new : ExecutionBudget
new = record {
  max_agent_calls = 8;
  max_external_calls = 16;
  max_external_calls_per_type = 6;
  agent_calls = 0;
  external_calls = 0;
  calls_by_type = [];
}

-- A method returns the new state, and the error that it raised.
pub consume_agent : ExecutionBudget → ExecutionBudget × Option Limit
consume_agent b =
    if leb b.max_agent_calls b.agent_calls
    then (b, some agent_call_limit_exceeded)
    else (record b { agent_calls = b.agent_calls + 1 }, none)

pub normalized_type : TextOps → Option String → String
normalized_type ops call_type =
    let text = ops.lower (
      ops.strip
        (elim call_type [ none ↦ "unknown" | some t ↦ if t == "" then "unknown" else t ])) in
    if text == "" then "unknown" else text

pub consume_type : String → ExecutionBudget → ExecutionBudget × Option Limit
consume_type t b =
    let current_type_calls = or_else (lookup t b.calls_by_type) 0 in
    if leb b.max_external_calls b.external_calls
    then (b, some external_call_limit_exceeded)
    else if leb b.max_external_calls_per_type current_type_calls
    then (b, some external_call_type_limit_exceeded)
    else (
      record b {
        external_calls = b.external_calls + 1;
        calls_by_type = insert t (current_type_calls + 1) b.calls_by_type;
      },
      none,
    )

pub consume_external : TextOps → Option String → ExecutionBudget → ExecutionBudget × Option Limit
consume_external ops call_type b = consume_type (normalized_type ops call_type) b

-- `consume_agent_call` and `consume_external_call`: without a budget in scope nothing is counted.
pub consume_agent_call : Option ExecutionBudget → Option ExecutionBudget × Option Limit
consume_agent_call none = (none, none)
consume_agent_call (some b) = let (b', e) = consume_agent b in (some b', e)

pub consume_external_call :
    TextOps → Option String → Option ExecutionBudget → Option ExecutionBudget × Option Limit
consume_external_call ops call_type none = (none, none)
consume_external_call ops call_type (some b) =
    let (b', e) = consume_external ops call_type b in (some b', e)

-- One operation of a request: an agent call, or an outbound call of some type.
pub data Call : Type 0 where
  agent : Call
  external : Option String → Call

pub consume : TextOps → Call → ExecutionBudget → ExecutionBudget × Option Limit
consume ops agent b = consume_agent b
consume ops (external t) b = consume_external ops t b

-- The request goes on after a refused call, with the state that the call left.
pub run : TextOps → List Call → ExecutionBudget → ExecutionBudget
run ops [] b = b
run ops (c ∷ cs) b = run ops cs (consume ops c b).0

-- How many of the calls that `p` picks were let through.
pub granted : TextOps → (Call → Bool) → List Call → ExecutionBudget → ℕ
granted ops p [] b = 0
granted ops p (c ∷ cs) b =
    (if p c && is_none (consume ops c b).1 then 1 else 0) + granted ops p cs (consume ops c b).0
