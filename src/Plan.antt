-- ===== src/Plan.antt =====
-- agent_runtime/execution_plan.py: the ledger of a turn's steps, and its public snapshot.
pub mod Turn
pub mod Rights
mod Transitions
use hommey.Prelude.{
  Bool, Dict, List, Option, Result, String, [], all, elem, err, false, if◌then◌else◌, insert,
  lookup, none, not, ok, or_else, require, some, true, ℕ, ◌&&◌, ◌*◌, ◌==◌, ◌>>=◌, ◌>>◌, ◌||◌, ◌∷◌,
  String_eq, ℕ_eq,
}

pub data Status : Type 0 where
  pending running completed partial needs_input failed skipped cancelled : Status

-- How a turn ends.
pub data Outcome : Type 0 where
  completed waiting_input partial degraded cancelled failed : Outcome

-- `Role` and the status of a `Report`, from agent_runtime/contracts.py
pub data Role : Type 0 where
  trip_context policy_rag memory travel_info trip_planner compliance : Role

pub data ReportStatus : Type 0 where
  success partial needs_input unavailable error : ReportStatus

-- What the ledger reads of a saved specialist result: `has_trip` is `bool(data.get("trip"))`.
pub record SpecialistResult : Type 0 where
  pub role : Role
  pub status : ReportStatus
  pub has_trip : Bool
  pub trip_action : Option String

-- A work item as the caller hands it in.
pub record WorkItem : Type 0 where
  pub role : Role
  pub result_id : String
  pub dependency_ids : List String

-- A work item of the ledger. Times are texts that the clock gives.
pub record Step : Type 0 where
  pub item : WorkItem
  pub open item use *
  pub status : Status
  pub step_id : String
  pub title : String
  pub purpose : String
  pub summary : String
  pub started_at : Option String
  pub finished_at : Option String
  pub error_code : Option String
  pub attempts : Option ℕ

pub record PublicStep : Type 0 where
  pub step_id : String
  pub title : String
  pub purpose : String
  pub depends_on : List String
  pub status : String
  pub summary : String
  pub started_at : Option String
  pub finished_at : Option String

pub record PublicPlan : Type 0 where
  pub run_id : String
  pub revision : ℕ
  pub status : String
  pub change_reason : String
  pub steps : List PublicStep

-- The parts of a turn's `state` that the ledger reads and writes; `children` are the result ids of
-- the saved child agents.
pub record State : Type 0 where
  pub work_items : Dict Step
  pub results : Dict SpecialistResult
  pub discarded_results : List String
  pub applied_results : List String
  pub children : List String
  pub public_plan : Option PublicPlan

-- `StopIteration` of `next`, `KeyError` of a missing result, and `ToolRejected` by its `code`
pub data PlanError : Type 0 where
  step_missing result_missing invalid_step_transition dependency_not_ready : PlanError
  step_result_required step_commit_required : PlanError

-- `LABELS[role]`: the title and the purpose of a step
pub labels : Role → String × String
labels trip_context = ("整理并保存出差信息", "核实出发地、目的地、日期和出差目的")
labels policy_rag = ("查阅报销与差旅制度", "核对本次事项的制度要求和适用条件")
labels travel_info = ("整理天气与交通信息", "获取行程所需的实时信息")
labels memory = ("核对差旅记录与偏好", "使用已有记录减少重复填写")
labels trip_planner = ("生成出差行程", "结合已核实的信息安排日程")
labels compliance = ("检查差旅合规", "核对方案与制度要求")

-- status in ACTIVE
abbrev pub is_active : Status → Bool
is_active pending = true
is_active running = true
is_active _ = false

abbrev pub is_running : Status → Bool
is_running running = true
is_running _ = false

abbrev code : Status → ℕ
code pending = 0
code running = 1
code Status.completed = 2
code Status.partial = 3
code Status.needs_input = 4
code Status.failed = 5
code skipped = 6
code Status.cancelled = 7

-- current == target
abbrev pub same : Status → Status → Bool
same a b = code a == code b

-- target in allowed.get(current, set())
abbrev pub allowed : Status → Status → Bool
allowed pending running = true
allowed pending skipped = true
allowed pending Status.cancelled = true
allowed pending Status.failed = true
allowed running Status.completed = true
allowed running Status.partial = true
allowed running Status.needs_input = true
allowed running Status.failed = true
allowed running Status.cancelled = true
allowed _ _ = false

-- next(v for v in work_items.values() if v["result_id"] == step_id)
pub find : String → Dict Step → Option Step
find id [] = none
find id ((k, v) ∷ d) = if v.result_id == id then some v else find id d

-- The found item is an object of the ledger, so a write to it changes the ledger.
pub update : String → (Step → Step) → Dict Step → Dict Step
update id f [] = []
update id f ((k, v) ∷ d) = if v.result_id == id then (k, f v) ∷ d else (k, v) ∷ update id f d

-- `title or default`
abbrev pub text_or : Option String → String → String
text_or none d = d
text_or (some t) d = if t == "" then d else t

new_step : WorkItem → Option String → Option String → Step
unfolding labels
new_step item title purpose = record {
  item = item;
  status = pending;
  step_id = item.result_id;
  title = text_or title (labels item.role).0;
  purpose = text_or purpose (labels item.role).1;
  summary = "";
  started_at = none;
  finished_at = none;
  error_code = none;
  attempts = none;
}

pub register : State → String → WorkItem → Option String → Option String → State × Step
register s key item title purpose = elim (find item.result_id s.work_items) [
  | some existing ↦ (s, existing)
  | none ↦
      let step = new_step item title purpose in
      (record s { work_items = insert key step s.work_items }, step)
]

-- Each dependency of a step that starts needs a usable result.
pub dependency_ready : State → String → Bool
dependency_ready s dep = elim (lookup dep s.results) [
  | none ↦ false
  | some r ↦
      (elim r.status [ success ↦ true | ReportStatus.partial ↦ true | _ ↦ false ])
      && not (elem dep s.discarded_results)
]

-- {"completed": "success", …}[target], and whether a report has that status
abbrev pub matches : Status → ReportStatus → Bool
matches Status.completed success = true
matches Status.partial ReportStatus.partial = true
matches Status.needs_input ReportStatus.needs_input = true
matches _ _ = false

abbrev pub wants_result : Status → Bool
wants_result Status.completed = true
wants_result Status.partial = true
wants_result Status.needs_input = true
wants_result _ = false

-- A trip report that proposes a change of the trip.
pub is_proposal : SpecialistResult → Bool
is_proposal r = elim r.role [
  | trip_context ↦ r.has_trip || not (or_else r.trip_action "update" == "update")
  | _ ↦ false
]

pub check_result : State → String → Status → Result PlanError (Unit {0})
check_result s id target =
    if wants_result target
    then (elim (lookup id s.results) [
      | none ↦ err step_result_required
      | some r ↦
          if not (matches target r.status)
          then err step_result_required
          else if is_proposal r && not (elem id s.applied_results)
          then err step_commit_required
          else ok tt
    ])
    else ok tt

abbrev default_summary : Status → String
default_summary running = "正在处理此步骤。"
default_summary Status.completed = "已完成校验。"
default_summary Status.partial = "已有可核实结果，仍有信息缺失。"
default_summary Status.needs_input = "需要补充信息后继续。"
default_summary Status.failed = "此步骤未完成，其他有效结果仍可交付。"
default_summary Status.cancelled = "本次执行已停止。"
default_summary skipped = "本轮不再执行此步骤。"
default_summary pending = ""

pub enter : String → Status → Option String → Step → Step
enter now target reason v = record v {
  status = target;
  summary = text_or reason (default_summary target);
  started_at = if is_running target then some now else v.started_at;
  finished_at = if is_active target then v.finished_at else some now;
}

-- `now` is what the clock gives; a raise comes before any write.
pub transition : String → State → String → Status → Option String → Result PlanError State
transition now s id target reason = elim (find id s.work_items) [
  | none ↦ err step_missing
  | some v ↦ if same v.status target then ok s else (do
    require (allowed v.status target) invalid_step_transition
    require (not (is_running target) || all (dependency_ready s) v.dependency_ids)
        dependency_not_ready
    check_result s id target
    ok (record s { work_items = update id (enter now target reason) s.work_items }))
]
