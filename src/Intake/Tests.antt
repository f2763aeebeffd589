-- ===== src/Intake/Tests.antt =====
-- Requests that core/trip_intake.py evaluates, and the theorem about it at one of them.
use hommey.Intake.{Parsers, Request, evaluate_trip_intake, number}
use hommey.Intake.Readiness.{evaluate_trip_intake-ready, is_ready}
use hommey.Text.{codes}
use hommey.Prelude.{[], none, refl, some, true, ◌-◌, ◌∷◌, ◌≡◌}

-- days as texts of one digit
abbrev digits : Parsers
digits = record {
  fromisoformat = (λ s. elim s [ [] ↦ none | c ∷ t ↦ some (c - 48) ]);
  to_int = (λ s. elim s [ [] ↦ none | c ∷ t ↦ some (c - 48) ]);
}

abbrev to_oslo : Request
to_oslo = record {
  origin = codes "Bergen";
  destination = codes " Oslo";
  start_date = codes "3";
  end_date = codes "5";
  duration_days = number 3;
  trip_purpose = codes "visit";
  work_location = [];
  work_schedule = [];
}

to_oslo_run : (evaluate_trip_intake digits to_oslo).planning_ready ≡ true
unfolding evaluate_trip_intake
to_oslo_run = refl

too_long_run :
    (evaluate_trip_intake digits (record to_oslo { duration_days = number 4 })).missing_required
    ≡ "trip_length" ∷ []
unfolding evaluate_trip_intake
too_long_run = refl

evaluate_trip_intake-ready_example :
    (evaluate_trip_intake digits to_oslo).planning_ready ≡ is_ready digits to_oslo
evaluate_trip_intake-ready_example = evaluate_trip_intake-ready digits to_oslo
