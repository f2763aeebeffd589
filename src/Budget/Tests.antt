-- ===== src/Budget/Tests.antt =====
-- Runs of core/execution_budget.py at concrete calls.
use hommey.Budget.{
  Call, TextOps, agent, consume, consume_external, consume_type, external, granted, new,
  normalized_type, run,
}
use hommey.Budget.Bounds.{AtLimit, IsWithin, consume-refused, granted_bounded, is_agent, is_type}
use hommey.Prelude.{List, [], arith, insert, lookup, none, refl, some, ◌↔◌, ◌∷◌, ◌≡◌, ◌≢◌, ◌≤◌}

abbrev plain : TextOps
plain = record { strip = λ t. t; lower = λ t. t }

abbrev seven_llm : List Call
seven_llm =
    external (some "llm")
    ∷ external (some "llm")
    ∷ external (some "llm")
    ∷ external (some "llm")
    ∷ external (some "llm")
    ∷ external (some "llm")
    ∷ external (some "llm")
    ∷ external none
    ∷ []

new-IsWithin : IsWithin new
unfolding lookup
new-IsWithin = record {
  agents = omega arith;
  externals = omega arith;
  types = λ t. omega arith;
  counted = refl;
}

seventh_refused : (run plain seven_llm new).calls_by_type ≡ ("llm", 6) ∷ ("unknown", 1) ∷ []
unfolding run consume consume_external consume_type normalized_type lookup insert
seventh_refused = refl

granted_bounded_example :
    (granted plain is_agent seven_llm new ≤ 8)
    × (granted plain (is_type plain "llm") seven_llm new ≤ 6)
granted_bounded_example = granted_bounded plain "llm" seven_llm new new-IsWithin

consume-refused_example :
    (((consume plain agent new).1 ≢ none) ↔ AtLimit plain agent new)
    × ((consume plain agent new).1 ≢ none → (consume plain agent new).0 ≡ new)
consume-refused_example = consume-refused plain agent new
