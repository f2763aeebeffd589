-- ===== src/Plan/Turn.antt =====
-- agent_runtime/execution_plan.py: what ends, resumes and publishes a turn's ledger.
mod Settling
mod Soundness
mod Tests
use hommey.Plan.{
  PlanError, PublicPlan, PublicStep, ReportStatus, State, Status, Step, is_active, labels, pending,
  running, same, skipped, success, transition, Outcome, degraded, result_missing, text_or,
  waiting_input, cancelled, completed, failed, needs_input, partial,
}
use hommey.Prelude.{
  Bool, Dict, List, Option, Result, String, [], any, elem, err, if◌then◌else◌, leb, lookup, map,
  none, ok, or_else, some, ℕ, ◌&&◌, ◌+◌, ◌==◌, ◌>>=◌, ◌>>◌, ◌∷◌, String_eq, ℕ_eq,
}

pub complete : String → State → String → Result PlanError State
complete now s id = elim (lookup id s.results) [
  | none ↦ err result_missing
  | some r ↦
      transition now s id
        (elim r.status [
          | success ↦ Status.completed
          | ReportStatus.partial ↦ Status.partial
          | ReportStatus.needs_input ↦ Status.needs_input
          | _ ↦ Status.failed
        ])
        none
]

abbrev pub settle_target : Outcome → Status
settle_target Outcome.cancelled = Status.cancelled
settle_target waiting_input = skipped
settle_target _ = Status.failed

-- item["error_code"] = reason, on the item under a key
pub mark : String → Option String → Dict Step → Dict Step
mark key reason [] = []
mark key reason ((k, v) ∷ d) =
    if k == key then (k, record v { error_code = reason }) ∷ d else (k, v) ∷ mark key reason d

-- One round of the loop of `settle`, at the item under `key`.
pub settle_item : String → Status → Option String → String → State → Result PlanError State
settle_item now target reason key s = elim (lookup key s.work_items) [
  | none ↦ ok s
  | some v ↦
      if is_active v.status
      then (do
        s' ← transition now s v.result_id target none
        ok (record s' { work_items = mark key reason s'.work_items }))
      else ok s
]

pub settle_items : String → Status → Option String → List String → State → Result PlanError State
settle_items now target reason [] s = ok s
settle_items now target reason (key ∷ keys) s = do
  s' ← settle_item now target reason key s
  settle_items now target reason keys s'

abbrev pub has_status : Status → Dict Step → Bool
has_status target d = any (λ p. same p.1.status target) d

-- What the turn's outcome becomes, given how its steps ended.
pub final_outcome : Outcome → Dict Step → Outcome
final_outcome Outcome.completed d =
    if has_status Status.failed d
    then degraded
    else if has_status Status.needs_input d
    then waiting_input
    else if has_status Status.partial d
    then Outcome.partial
    else Outcome.completed
final_outcome outcome d = outcome

pub settle : String → State → Outcome → Option String → Result PlanError (State × Outcome)
settle now s outcome reason = do
  s' ← settle_items now (settle_target outcome) reason (map (λ p. p.0) s.work_items) s
  ok (s', final_outcome outcome s'.work_items)

-- A cancelled step of a saved child starts again, at most once.
pub resume_step : List String → Step → Step
resume_step children v =
    if same v.status Status.cancelled && elem v.result_id children
    then (if leb 2 (or_else v.attempts 1)
        then record v { status = Status.failed; error_code = some "STEP_RESUME_LIMIT" }
        else record v {
          status = pending;
          attempts = some (or_else v.attempts 1 + 1);
          summary = "从已保存的检查点继续。";
          started_at = none;
          finished_at = none;
        })
    else v

pub resume : State → State
resume s = record s { work_items = map (λ p. (p.0, resume_step s.children p.1)) s.work_items }

-- The status that the public plan shows.
pub status_text : Status → String
status_text pending = "pending"
status_text running = "running"
status_text Status.completed = "succeeded"
status_text Status.partial = "partial"
status_text Status.needs_input = "needs_input"
status_text Status.failed = "failed"
status_text skipped = "skipped"
status_text Status.cancelled = "cancelled"

pub public_step : Step → PublicStep
unfolding labels
public_step v = record {
  step_id = v.result_id;
  title = if v.title == "" then (labels v.role).0 else v.title;
  purpose = if v.purpose == "" then (labels v.role).1 else v.purpose;
  depends_on = v.dependency_ids;
  status = status_text v.status;
  summary = v.summary;
  started_at = v.started_at;
  finished_at = v.finished_at;
}

abbrev pub revision_of : Option PublicPlan → ℕ
revision_of none = 0
revision_of (some p) = p.revision

abbrev change_default : List PublicStep → String
change_default [] = "正在确认需求。"
change_default (x ∷ xs) = "已登记待执行步骤。"

pub snapshot : State → String → String → Option String → State × PublicPlan
snapshot s run_id outcome reason =
    let steps = map (λ p. public_step p.1) s.work_items in
    let plan : PublicPlan = record {
      run_id = run_id;
      revision = revision_of s.public_plan + 2;
      status = outcome;
      change_reason = text_or reason (change_default steps);
      steps = steps;
    } in
    (record s { public_plan = some plan }, plan)
