-- ===== src/Runs/Tests.antt =====
-- Runs of agent_runtime/store.py on a small database, and the theorems about it there.
use hommey.Runs.Rows.{
  Checkpoint, Db, Receipt, Run, Sanitizer, Scope, Trip, completed, running, runtime_stopped,
}
use hommey.Runs.Turns.{Begun, begin, check, interrupt, new_run, save, with_runs}
use hommey.Runs.Trips.{Change, apply, current_trip, new_context, trip_version, update}
use hommey.Runs.Fencing.{begin_fences}
use hommey.Runs.Replays.{apply_replays, apply_versions}
use hommey.Runs.Single.{IsSingle}
use hommey.Runs.Single.Reach.{Reach-IsSingle, applies, begins, here, next}
use hommey.Prelude.{
  [], arith, eq_iff, erase, err, false, insert, length, lookup, none, ok, refl, true, ℕ, ◌∷◌, ◌≡◌,
  ◌≢◌,
}

abbrev ann : Scope
ann = record { user_id = "ann"; request_id = "r2"; session_id = "s1"; session_key = "uuid-1" }

abbrev blank : Checkpoint
blank = record { json = "{}"; public_plan = none }

-- an earlier request of the session, still running
abbrev first_run : Run
first_run = record {
  user_id = "ann";
  session_id = "uuid-1";
  request_id = "r1";
  input_hash = "h1";
  owner = "w1";
  status = running;
  cancel_requested = false;
  checkpoint = blank;
  response = none;
  mutations = [];
  retention_until = 5000;
  created_at = 10;
  updated_at = 10;
}

abbrev start : Db
start = record {
  sessions = record { session_id = "uuid-1"; user_id = "ann"; close_reason = none } ∷ [];
  runs = first_run ∷ [];
  trips = [];
  records = [];
  travel_preferences = [];
  user_preferences = [];
}

abbrev begun : Begun
begun = record { owner = "w2"; response = none; checkpoint = blank }

abbrev second_run : Run
second_run = new_run 20 ann "h2" "w2"

abbrev both : Db
both = with_runs start (interrupt 20 first_run ∷ second_run ∷ [])

begin_run-runs : begin 20 ann "h2" "w2" start ≡ ok (begun, both)
unfolding begin
begin_run-runs = refl

abbrev stale_scope : Scope
stale_scope = record ann { request_id = "r1" }

abbrev digest : Trip → ℕ
digest d = length d

abbrev to_oslo : Change
to_oslo = record {
  operation = "op1";
  expected_version = 0;
  trip = ("destination", "Oslo") ∷ [];
  preferences = ("airlines", "[SK]") ∷ [];
  action = update;
}

abbrev plain : Sanitizer
plain = record { safe = λ c. c; safe_response = λ s. s }

workers_differ : first_run.owner ≢ second_run.owner
workers_differ = λ e. ground (arith, e, eq_iff "w1" "w2")

begin_fences_example :
    (check ann "w2" both ≡ ok tt)
    × (check stale_scope "w1" both ≡ err runtime_stopped)
    × (save 30 plain stale_scope "w1" blank none completed both ≡ err runtime_stopped)
    × (apply digest 30 "t1" stale_scope "w1" to_oslo both ≡ err runtime_stopped)
begin_fences_example =
    begin_fences 20 ann "h2" "w2" start begun both stale_scope "w1" digest 30 "t1" to_oslo plain
      blank none completed refl begin_run-runs refl refl workers_differ

abbrev oslo_trip : Trip
oslo_trip = ("destination", "Oslo") ∷ ("status", "active") ∷ ("_trip_id", "t1") ∷ []

abbrev oslo_receipt : Receipt
oslo_receipt = record { trip = oslo_trip; version = 3; preferences_updated = true }

abbrev applied : Db
applied = record {
  sessions = both.sessions;
  runs =
      interrupt 20 first_run
      ∷ record second_run { mutations = ("op1", oslo_receipt) ∷ []; updated_at = 30 }
      ∷ [];
  trips = new_context ann oslo_trip ∷ [];
  records =
      record {
        trip_id = "t1";
        user_id = "ann";
        session_id = "uuid-1";
        record_state = "planned";
        context_data = oslo_trip;
      }
      ∷ [];
  travel_preferences = ("ann", ("airlines", ("[SK]", 30)) ∷ []) ∷ [];
  user_preferences = ("ann", ("airlines", ("[SK]", 30)) ∷ []) ∷ [];
}

apply_run : apply digest 30 "t1" ann "w2" to_oslo both ≡ ok (oslo_receipt, applied)
unfolding apply lookup insert erase
apply_run = refl

apply_replays_example : apply digest 40 "t2" ann "w2" to_oslo applied ≡ ok (oslo_receipt, applied)
apply_replays_example =
    apply_replays digest 30 40 "t1" "t2" ann "w2" to_oslo to_oslo both oslo_receipt applied
      apply_run refl

apply_versions_example :
    (0 ≡ trip_version digest (current_trip ann both))
    × (3 ≡ trip_version digest (current_trip ann applied))
unfolding lookup
apply_versions_example =
    apply_versions digest 30 "t1" ann "w2" to_oslo both oslo_receipt applied refl apply_run

start-IsSingle : IsSingle start.runs
start-IsSingle = record { keyed = λ u q. ground arith; single = λ u s. ground arith }

Reach-IsSingle_example : IsSingle applied.runs
Reach-IsSingle_example =
    Reach-IsSingle
      (next (next here (begins 20 ann "h2" "w2" begun begin_run-runs))
        (applies digest 30 "t1" ann "w2" to_oslo oslo_receipt apply_run))
      start-IsSingle
