-- ===== src/Plan/Turn/Tests.antt =====
-- Ledgers of agent_runtime/execution_plan.py at concrete steps.
use hommey.Plan.{
  trip_context, Outcome, State, Status, Step, WorkItem, check_result, degraded, enter, find,
  invalid_step_transition, is_active, new_step, register, running, skipped, transition, travel_info,
  update, waiting_input, is_proposal, step_commit_required, success,
}
use hommey.Plan.Turn.{final_outcome, mark, settle, settle_item, settle_items}
use hommey.Plan.Transitions.{Moved, transition-Moved}
use hommey.Plan.Turn.Settling.{is_blocked, settle-eq-settled_all, settle_closes, settled_all}
use hommey.Plan.Turn.Soundness.{register-IsSound, IsSound, transition-IsSound}
use hommey.Prelude.{
  [], any, err, false, if◌then◌else◌, insert, lookup, none, ok, refl, true, ◌↔◌, ◌∷◌, ◌≡◌,
}

abbrev empty : State
empty = record {
  work_items = [];
  results = [];
  discarded_results = [];
  applied_results = [];
  children = [];
  public_plan = none;
}

abbrev weather : WorkItem
weather = record { role = travel_info; result_id = "r1"; dependency_ids = [] }

abbrev one_step : State
one_step = (register empty "k1" weather none none).0

empty-IsSound : IsSound empty
unfolding find
empty-IsSound = record { backed = λ id v f. absurd (cc f) }

one_step-IsSound : IsSound one_step
unfolding lookup
one_step-IsSound =
    (register-IsSound empty "k1" "k2" weather weather none none empty-IsSound refl refl).0

abbrev started : Step → State
started v = record one_step { work_items = ("k1", enter "t0" running none v) ∷ [] }

abbrev step1 : Step
step1 = (register empty "k1" weather none none).1

starts : transition "t0" one_step "r1" running none ≡ ok (started step1)
unfolding transition check_result register new_step find update lookup insert enter
starts = refl

transition-Moved_example :
    (transition "t0" one_step "r1" running none ≡ ok (started step1))
    ↔ Moved "t0" one_step (started step1) "r1" running none
transition-Moved_example = transition-Moved "t0" one_step (started step1) "r1" running none

one_step_moves : Moved "t0" one_step (started step1) "r1" running none
one_step_moves = (transition-Moved "t0" one_step (started step1) "r1" running none).0 starts

started-IsSound : IsSound (started step1)
started-IsSound =
    transition-IsSound "t0" one_step (started step1) "r1" running none one_step-IsSound starts

-- A report on the trip that proposes a change, which was applied.
abbrev trip : WorkItem
trip = record { role = trip_context; result_id = "r2"; dependency_ids = [] }

abbrev reported : State
reported = record empty {
  results =
      ("r2", record { role = trip_context; status = success; has_trip = true; trip_action = none })
      ∷ [];
  applied_results = "r2" ∷ [];
}

reported-IsSound : IsSound reported
unfolding find
reported-IsSound = record { backed = λ id v f. absurd (cc f) }

abbrev trip_step : Step
trip_step = (register reported "k2" trip none none).1

abbrev trip_ledger : Step → State
trip_ledger v = record reported { work_items = ("k2", v) ∷ [] }

trip_starts :
    transition "t0" (register reported "k2" trip none none).0 "r2" running none
    ≡ ok (trip_ledger (enter "t0" running none trip_step))
unfolding transition check_result register new_step find update lookup insert enter
trip_starts = refl

trip_ledger-IsSound : IsSound (trip_ledger (enter "t0" running none trip_step))
unfolding lookup
trip_ledger-IsSound =
    transition-IsSound "t0" (register reported "k2" trip none none).0
      (trip_ledger (enter "t0" running none trip_step)) "r2" running none
      (register-IsSound reported "k2" "k3" trip trip none none reported-IsSound refl refl).0
      trip_starts

abbrev trip_done : Step
trip_done = enter "t1" Status.completed none (enter "t0" running none trip_step)

trip_completes :
    transition "t1" (trip_ledger (enter "t0" running none trip_step)) "r2" Status.completed none
    ≡ ok (trip_ledger trip_done)
unfolding transition check_result register new_step find update lookup insert enter is_proposal
trip_completes = refl

transition-IsSound_example : IsSound (trip_ledger trip_done)
transition-IsSound_example =
    transition-IsSound "t1" (trip_ledger (enter "t0" running none trip_step))
      (trip_ledger trip_done) "r2" Status.completed none trip_ledger-IsSound trip_completes

-- Without the commit it does not complete.
trip_waits :
    transition "t1"
      (record (trip_ledger (enter "t0" running none trip_step)) { applied_results = [] })
      "r2"
      Status.completed
      none
    ≡ err step_commit_required
unfolding transition check_result register new_step find update lookup insert enter is_proposal
trip_waits = refl

-- A step that still runs cannot be skipped.
settle-eq-settled_all_example : settle "t1" (started step1) waiting_input none ≡ (
    if any (λ p. is_blocked skipped p.1) (started step1).work_items
    then err invalid_step_transition
    else (let d = settled_all "t1" skipped none (started step1).work_items in
        ok (record (started step1) { work_items = d }, final_outcome waiting_input d)))
settle-eq-settled_all_example =
    settle-eq-settled_all "t1" (started step1) waiting_input none ((tt, tt))

running_blocks : settle "t1" (started step1) waiting_input none ≡ err invalid_step_transition
unfolding enter
running_blocks = settle-eq-settled_all "t1" (started step1) waiting_input none ((tt, tt))

abbrev failed_plan : State
failed_plan = record (started step1) {
  work_items = settled_all "t1" Status.failed none (started step1).work_items;
}

settles : settle "t1" (started step1) Outcome.completed none ≡ ok (failed_plan, degraded)
unfolding settle settle_items settle_item transition register new_step find update lookup insert
    enter mark check_result final_outcome
settles = refl

settle_closes_example : any (λ p. is_active p.1.status) failed_plan.work_items ≡ false
settle_closes_example =
    settle_closes "t1" (started step1) Outcome.completed none failed_plan degraded (tt, tt) settles
