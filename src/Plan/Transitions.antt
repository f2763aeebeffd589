-- ===== src/Plan/Transitions.antt =====
-- What a transition of agent_runtime/execution_plan.py may do to the ledger.
use hommey.Plan.{
  State, Status, Step, find, same, transition, update, dependency_ready, enter, running, is_running,
}
use hommey.Plan.Rights.{
  AreUsable-all, Earned, Earned-check_result, Edge, Edge-allowed, Edge-same, IsUsable,
  all-AreUsable, allowed-Edge, check_result-Earned,
}
use hommey.Prelude.{
  All, Bool-cases, Dict, Option, Option-cases, String, [], all, arith, eq_iff, if◌then◌else◌, inl,
  inr, none, not, ok, refl, some, true, ◌==◌, ◌||◌, ◌↔◌, ◌∷◌, ◌≡◌, String_eq, ℕ_eq,
}

pub find-update :
    (id j : String) (f : Step → Step) (d : Dict Step)
    → ((v : Step) → (f v).result_id ≡ v.result_id)
    → find j (update id f d)
      ≡ (if id == j then elim (find id d) [ none ↦ none | some v ↦ some (f v) ] else find j d)
unfolding find update
find-update id j f [] h = ground arith
find-update id j f ((k, v) ∷ d) h =
    ground
      (arith, h v, eq_iff v.result_id id, eq_iff v.result_id j, eq_iff id j, find-update id j f d h)

same→≡ : (a b : Status) → same a b ≡ true → a ≡ b
same→≡ a b h = ground arith

-- What a successful transition of the step `id` to `target` did.
pub data Moved (now : String) (s s' : State) (id : String) (target : Status)
    (reason : Option String) : Type 0 where
  stayed :
      (v : Step)
      → find id s.work_items ≡ some v
      → v.status ≡ target
      → s' ≡ s
      → Moved now s s' id target reason
  moved :
      (v : Step)
      → find id s.work_items ≡ some v
      → Edge v.status target
      → s' ≡ record s { work_items = update id (λ _. enter now target reason v) s.work_items }
      → Earned s id target
      → (target ≡ running → All (IsUsable s) v.dependency_ids)
      → Moved now s s' id target reason

update-found :
    (id : String) (f : Step → Step) (v : Step) (d : Dict Step)
    → find id d ≡ some v
    → update id f d ≡ update id (λ _. f v) d
unfolding find update
update-found id f v [] h = refl
update-found id f v ((k, w) ∷ d) h = ground (arith, update-found id f v d)

same_refl : (a b : Status) → a ≡ b → same a b ≡ true
same_refl a b h = ground (arith, h)

is_running-eq : (a : Status) → is_running a ≡ true → a ≡ running
is_running-eq a h = ground (arith, h)

Moved-transition :
    (now : String) (s s' : State) (id : String) (target : Status) (reason : Option String)
    → Moved now s s' id target reason
    → transition now s id target reason ≡ ok s'
unfolding transition
Moved-transition now s s' id target reason (Moved.stayed v e q p) =
    rw (transition, p, e, same_refl v.status target q) refl
Moved-transition now s s' id target reason (Moved.moved v e g p c u) =
    let ready : (not (is_running target) || all (dependency_ready s) v.dependency_ids) ≡ true =
      elim (Bool-cases (is_running target)) [
        | inl b ↦ rw (b, AreUsable-all s v.dependency_ids (u (is_running-eq target b))) refl
        | inr b ↦ rw b refl
      ] in
    rw
      (
        transition,
        p,
        e,
        Edge-same v.status target g,
        Edge-allowed v.status target g,
        ready,
        Earned-check_result s id target c,
        update-found id (enter now target reason) v s.work_items e,
      )
      refl

transition-cases :
    (now : String) (s s' : State) (id : String) (target : Status) (reason : Option String)
    → transition now s id target reason ≡ ok s'
    → Moved now s s' id target reason
unfolding transition
transition-cases now s s' id target reason h = elim (Option-cases (find id s.work_items)) [
  | inl e ↦ ground (arith, e)
  | inr (v, e) ↦ elim (Bool-cases (same v.status target)) [
    | inl q ↦ Moved.stayed v e (same→≡ v.status target q) (ground (arith, e, q))
    | inr q ↦
        Moved.moved v e (allowed-Edge v.status target (ground (arith, e, q)))
          (ground (arith, e, q, update-found id (enter now target reason) v s.work_items))
          (check_result-Earned s id target (ground (arith, e, q)))
          (λ r. all-AreUsable s v.dependency_ids (ground (arith, e, q, r)))
  ]
]

-- A transition returns exactly in two cases, and what it returns is said for both: the step is found
-- in the target status, and nothing changes; or the target is reached from the step's status along
-- one of the nine edges of the state machine, and that one step is written. In the second case, a
-- step that ends `completed`, `partial` or `needs_input` has a saved report of the status that this
-- claims, applied if it proposes a change of the trip, and a step that starts has for each of its
-- dependencies a report that is successful or partial and was not discarded.
pub transition-Moved :
    (now : String) (s s' : State) (id : String) (target : Status) (reason : Option String)
    → (transition now s id target reason ≡ ok s') ↔ Moved now s s' id target reason
transition-Moved now s s' id target reason =
    (transition-cases now s s' id target reason, Moved-transition now s s' id target reason)
