-- ===== src/Runs/Turns.antt =====
-- agent_runtime/store.py: the methods of `RunStore` that begin, guard and end a turn.
use hommey.Runs.Rows.{
  Checkpoint, Db, Run, RunStatus, Sanitizer, Scope, Session, StoreError, completed, failed,
  in_session, interrupted, is_key, is_owned, is_request, is_running, request_reused, running,
  runtime_stopped, superseded, is_completed,
}
use hommey.Plan.{PublicPlan, PublicStep}
use hommey.Prelude.{
  Bool, List, Option, Result, String, [], any, err, false, find_by, if◌then◌else◌, is_some, keep,
  ltb, map, none, not, ok, require, some, take, true, update_where, ℕ, ◌&&◌, ◌*◌, ◌++◌, ◌+◌, ◌==◌,
  ◌||◌, ◌∷◌, String_eq, ℕ_eq,
}

abbrev pub with_runs : Db → List Run → Db
with_runs db rs = record db { runs = rs }

-- What `_begin` returns.
pub record Begun : Type 0 where
  pub owner : String
  pub response : Option String
  pub checkpoint : Checkpoint

-- close_reason IS DISTINCT FROM 'deleted' AND … 'cleared'
abbrev pub is_open : Scope → Session → Bool
is_open scope s =
    s.session_id == scope.session_key && s.user_id == scope.user_id && (elim s.close_reason [
      | none ↦ true
      | some reason ↦ not (reason == "deleted") && not (reason == "cleared")
    ])

-- NOW() + INTERVAL '14 days', in seconds
abbrev retention : ℕ
retention = 14 * 86400

abbrev pub new_run : ℕ → Scope → String → String → Run
new_run now scope input_hash owner = record {
  user_id = scope.user_id;
  session_id = scope.session_key;
  request_id = scope.request_id;
  input_hash = input_hash;
  owner = owner;
  status = running;
  cancel_requested = false;
  checkpoint = record { json = "{}"; public_plan = none };
  response = none;
  mutations = [];
  retention_until = now + retention;
  created_at = now;
  updated_at = now;
}

-- DELETE … WHERE user_id AND retention_until < NOW()
abbrev pub retained : ℕ → Scope → List Run → List Run
retained now scope rs = keep (λ r. not (r.user_id == scope.user_id && ltb r.retention_until now)) rs

-- INSERT … SELECT … ON CONFLICT DO NOTHING
abbrev pub inserted : ℕ → Scope → String → String → List Session → List Run → List Run
inserted now scope input_hash owner sessions rs =
    if any (is_open scope) sessions && not (any (is_request scope) rs)
    then rs ++ new_run now scope input_hash owner ∷ []
    else rs

abbrev pub other_running : Scope → Run → Bool
other_running scope r =
    in_session scope r && not (r.request_id == scope.request_id) && is_running r.status

abbrev pub interrupt : ℕ → Run → Run
interrupt now r = record r { status = interrupted; cancel_requested = true; updated_at = now }

abbrev pub take_over : ℕ → String → Run → Run
take_over now owner r = record r {
  owner = owner;
  status = running;
  cancel_requested = false;
  updated_at = now;
}

-- The last two statements of `_begin`.
abbrev pub taken_over : ℕ → Scope → String → List Run → List Run
taken_over now scope owner rs =
    update_where (is_request scope) (take_over now owner)
      (update_where (other_running scope) (interrupt now) rs)

-- `_begin` after its first two statements
unfoldable pub begin_run : ℕ → Scope → String → String → Db → Result StoreError (Begun × Db)
begin_run now scope input_hash owner db = elim (find_by (is_request scope) db.runs) [
  | none ↦ err request_reused
  | some row ↦
      if not (row.session_id == scope.session_key) || not (row.input_hash == input_hash)
      then err request_reused
      else if is_completed row.status
      then ok (record { owner = owner; response = row.response; checkpoint = row.checkpoint }, db)
      else if any (λ r. in_session scope r && ltb row.created_at r.created_at) db.runs
      then err superseded
      else ok (
        record { owner = owner; response = none; checkpoint = row.checkpoint },
        with_runs db (taken_over now scope owner db.runs),
      )
]

-- `_begin`; an error rolls the transaction back. `owner` is the fresh UUID.
unfoldable pub begin : ℕ → Scope → String → String → Db → Result StoreError (Begun × Db)
unfolding begin_run
begin now scope input_hash owner db =
    begin_run now scope input_hash owner
      (with_runs db (inserted now scope input_hash owner db.sessions (retained now scope db.runs)))

-- `_check`
unfoldable pub check : Scope → String → Db → Result StoreError (Unit {0})
check scope owner db = require (any (is_owned scope owner) db.runs) runtime_stopped

abbrev pub saved : ℕ → Sanitizer → Checkpoint → Option String → RunStatus → Run → Run
saved now s checkpoint response status r = record r {
  checkpoint = s.safe checkpoint;
  response = (elim response [ none ↦ none | some t ↦ some (s.safe_response t) ]);
  status = status;
  updated_at = now;
}

-- `_save`
unfoldable pub save :
    ℕ
    → Sanitizer
    → Scope
    → String
    → Checkpoint
    → Option String
    → RunStatus
    → Db
    → Result StoreError Db
save now s scope owner checkpoint response status db =
    if any (is_owned scope owner) db.runs
    then ok (
        with_runs db
          (update_where (is_owned scope owner) (saved now s checkpoint response status) db.runs))
    else err runtime_stopped

-- … AND owner AND status='running', cancelled or not
abbrev pub is_mine : Scope → String → Run → Bool
is_mine scope owner r = is_key scope r && r.owner == owner && is_running r.status

abbrev pub stopped : ℕ → Sanitizer → RunStatus → Option Checkpoint → Run → Run
stopped now s status checkpoint r = record r {
  status = status;
  checkpoint = (elim checkpoint [ none ↦ r.checkpoint | some c ↦ s.safe c ]);
  updated_at = now;
}

-- `_stop`
unfoldable pub stop : ℕ → Sanitizer → Scope → String → RunStatus → Option Checkpoint → Db → Db
stop now s scope owner status checkpoint db =
    with_runs db (update_where (is_mine scope owner) (stopped now s status checkpoint) db.runs)

abbrev pub is_cancellable : Scope → Run → Bool
is_cancellable scope r = is_key scope r && is_running r.status

-- `_cancel`, and whether a run was there
unfoldable pub cancel : ℕ → Scope → Db → Bool × Db
cancel now scope db = (
  any (is_cancellable scope) db.runs,
  with_runs db (
      update_where (is_cancellable scope)
        (λ r. record r { cancel_requested = true; updated_at = now }) db.runs),
)

-- ORDER BY created_at DESC LIMIT 1
abbrev latest : List Run → Option Run
latest [] = none
latest (r ∷ rs) = elim (latest rs) [
  | none ↦ some r
  | some k ↦ if ltb r.created_at k.created_at then some k else some r
]

-- `_previous`
unfoldable pub previous : ℕ → Scope → Db → Option (Checkpoint × RunStatus)
previous now scope db =
    elim (latest (
      keep
        (λ r.
          in_session scope r && not (r.request_id == scope.request_id) && ltb now r.retention_until)
        db.runs)) [ none ↦ none | some r ↦ some (r.checkpoint, r.status) ]

abbrev is_unfinished : String → Bool
is_unfinished s = s == "pending" || s == "running"

abbrev close_step : String → PublicStep → PublicStep
close_step status step =
    if is_unfinished step.status then record step { status = status; summary = "此步骤未完成。" } else step

abbrev closed : String → PublicPlan → PublicPlan
closed status plan = record plan {
  status = status;
  revision = plan.revision + 1;
  change_reason = "本次执行已停止。";
  steps = map (close_step status) plan.steps;
}

-- How `_public_plans` shows the plan of a run that was stopped.
unfoldable pub closed_plan : RunStatus → PublicPlan → PublicPlan
closed_plan status plan = if not (plan.status == "running") then plan else (elim status [
  | running ↦ plan
  | completed ↦ plan
  | interrupted ↦ closed "cancelled" plan
  | failed ↦ closed "failed" plan
])

-- ORDER BY created_at DESC
abbrev newer_in : Run → List Run → List Run
newer_in r [] = r ∷ []
newer_in r (k ∷ rs) = if ltb r.created_at k.created_at then k ∷ newer_in r rs else r ∷ k ∷ rs

abbrev newest_first : List Run → List Run
newest_first [] = []
newest_first (r ∷ rs) = newer_in r (newest_first rs)

abbrev plans_of : List Run → List PublicPlan
plans_of [] = []
plans_of (r ∷ rs) = elim r.checkpoint.public_plan [
  | none ↦ plans_of rs
  | some plan ↦ plans_of rs ++ closed_plan r.status plan ∷ []
]

-- `_public_plans`, oldest first
unfoldable pub public_plans : ℕ → Scope → Db → List PublicPlan
unfolding closed_plan
public_plans now scope db = plans_of (
    take 50 (
      newest_first (
        keep
          (λ r. in_session scope r && ltb now r.retention_until && is_some r.checkpoint.public_plan)
          db.runs)))
