-- ===== src/Budget/Bounds.antt =====
-- What the counters of core/execution_budget.py promise over any run of calls.
use hommey.Budget.{
  ExecutionBudget, TextOps, Call, agent, external, consume_agent, consume_type, consume_external,
  consume, normalized_type, granted, run,
}
use hommey.Prelude.{
  Bool, Dict, List, String, [], arith, eq_iff, false, if◌then◌else◌, insert, is_none, lookup,
  lookup-insert, none, or_else, refl, true, ℕ, ◌&&◌, ◌+◌, ◌==◌, ◌↔◌, ◌∷◌, ◌≡◌, ◌≢◌, ◌≤◌, ◌⊎◌,
  String_eq, ℕ_eq,
}

abbrev pub total : Dict ℕ → ℕ
total [] = 0
total (p ∷ d) = p.1 + total d

abbrev pub count_of : String → Dict ℕ → ℕ
count_of t d = or_else (lookup t d) 0

pub record IsWithin (b : ExecutionBudget) : Type 0 where
  pub agents : b.agent_calls ≤ b.max_agent_calls
  pub externals : b.external_calls ≤ b.max_external_calls
  pub types : (t : String) → count_of t b.calls_by_type ≤ b.max_external_calls_per_type
  pub counted : total b.calls_by_type ≡ b.external_calls

total-insert : (t : String) (d : Dict ℕ) → total (insert t (count_of t d + 1) d) ≡ total d + 1
unfolding lookup insert
total-insert t [] = refl
total-insert t ((i, n) ∷ d) = ground (arith, total-insert t d)

consume_agent-IsWithin : (b : ExecutionBudget) → IsWithin b → IsWithin (consume_agent b).0
unfolding consume_agent
consume_agent-IsWithin b h = record {
  agents = ground arith;
  externals = ground arith;
  types = λ t. ground (arith, h.types t);
  counted = ground arith;
}

consume_type-IsWithin :
    (t : String) (b : ExecutionBudget) → IsWithin b → IsWithin (consume_type t b).0
unfolding consume_type
consume_type-IsWithin t b h = record {
  agents = ground arith;
  externals = ground arith;
  types = λ j. ground (
    arith,
    h.types t,
    h.types j,
    eq_iff t j,
    lookup-insert t j (count_of t b.calls_by_type + 1) b.calls_by_type,
  );
  counted = ground (arith, total-insert t b.calls_by_type);
}

-- Every call, granted or refused, keeps each counter at or below its limit, and the total of the
-- counters by type at the number of external calls.
pub consume-IsWithin :
    (ops : TextOps) (c : Call) (b : ExecutionBudget) → IsWithin b → IsWithin (consume ops c b).0
unfolding consume consume_external
consume-IsWithin ops agent b h = consume_agent-IsWithin b h
consume-IsWithin ops (external t) b h = consume_type-IsWithin (normalized_type ops t) b h

pub run-IsWithin :
    (ops : TextOps) (cs : List Call) (b : ExecutionBudget) → IsWithin b → IsWithin (run ops cs b)
unfolding run
run-IsWithin ops [] b h = h
run-IsWithin ops (c ∷ cs) b h = run-IsWithin ops cs (consume ops c b).0 (consume-IsWithin ops c b h)

abbrev pub is_agent : Call → Bool
is_agent agent = true
is_agent (external t) = false

abbrev pub is_type : TextOps → String → Call → Bool
is_type ops t agent = false
is_type ops t (external s) = normalized_type ops s == t

limits-run :
    (ops : TextOps) (cs : List Call) (b : ExecutionBudget)
    → ((run ops cs b).max_agent_calls ≡ b.max_agent_calls)
      × ((run ops cs b).max_external_calls_per_type ≡ b.max_external_calls_per_type)
unfolding run consume consume_external consume_agent consume_type
limits-run ops [] b = (refl, refl)
limits-run ops (agent ∷ cs) b = ground (arith, limits-run ops cs (consume ops agent b).0)
limits-run ops (external t ∷ cs) b =
    ground (arith, limits-run ops cs (consume ops (external t) b).0)

-- What was granted is what the counters say.
granted_agents :
    (ops : TextOps) (cs : List Call) (b : ExecutionBudget)
    → (run ops cs b).agent_calls ≡ b.agent_calls + granted ops is_agent cs b
unfolding run granted consume consume_external consume_agent consume_type
granted_agents ops [] b = omega arith
granted_agents ops (agent ∷ cs) b = ground (arith, granted_agents ops cs (consume ops agent b).0)
granted_agents ops (external t ∷ cs) b =
    ground (arith, granted_agents ops cs (consume ops (external t) b).0)

count-consume_type :
    (t s : String) (b : ExecutionBudget)
    → count_of t (consume_type s b).0.calls_by_type
      ≡ (if s == t && is_none (consume_type s b).1 then 1 else 0) + count_of t b.calls_by_type
unfolding consume_type
count-consume_type t s b =
    ground (arith, eq_iff s t, lookup-insert s t (count_of s b.calls_by_type + 1) b.calls_by_type)

granted_type :
    (ops : TextOps) (t : String) (cs : List Call) (b : ExecutionBudget)
    → count_of t (run ops cs b).calls_by_type
      ≡ count_of t b.calls_by_type + granted ops (is_type ops t) cs b
unfolding run granted consume consume_external consume_agent
granted_type ops t [] b = omega arith
granted_type ops t (agent ∷ cs) b = ground (arith, granted_type ops t cs (consume ops agent b).0)
granted_type ops t (external s ∷ cs) b = omega (
  arith,
  granted_type ops t cs (consume ops (external s) b).0,
  count-consume_type t (normalized_type ops s) b,
)

-- Whatever a request calls, from a budget within its limits, no more agent calls are granted than
-- `max_agent_calls`, and of no outbound type more than `max_external_calls_per_type`.
pub granted_bounded :
    (ops : TextOps) (t : String) (cs : List Call) (b : ExecutionBudget)
    → IsWithin b
    → (granted ops is_agent cs b ≤ b.max_agent_calls)
      × (granted ops (is_type ops t) cs b ≤ b.max_external_calls_per_type)
granted_bounded ops t cs b h =
    let w = run-IsWithin ops cs b h in
    let l = limits-run ops cs b in
    (
      omega (arith, w.agents, l, granted_agents ops cs b),
      omega (arith, w.types t, l, granted_type ops t cs b),
    )

-- The limit that a call meets.
abbrev pub AtLimit : TextOps → Call → ExecutionBudget → Type 0
AtLimit ops agent b = b.max_agent_calls ≤ b.agent_calls
AtLimit ops (external s) b =
    (b.max_external_calls ≤ b.external_calls)
    ⊎ (b.max_external_calls_per_type ≤ count_of (normalized_type ops s) b.calls_by_type)

-- A call raises exactly when it meets its limit: the agent limit for an agent call, the total or
-- its type's limit for an outbound call. A call that raises leaves the whole budget as it was.
pub consume-refused :
    (ops : TextOps) (c : Call) (b : ExecutionBudget)
    → (((consume ops c b).1 ≢ none) ↔ AtLimit ops c b)
      × ((consume ops c b).1 ≢ none → (consume ops c b).0 ≡ b)
unfolding consume consume_external consume_agent consume_type
consume-refused ops agent b = ((λ h. ground arith, λ h. ground arith), λ h. ground arith)
consume-refused ops (external s) b = ((λ h. ground arith, λ h. ground arith), λ h. ground arith)
