-- ===== src/Evaluation/Worker.antt =====
-- evaluation/worker.py: the run over claimed rows; evaluation/reconciler.py: the rows for turns that
-- have none.
use hommey.Verdict.{
  FinalEvaluationResult, JudgeResult, RuleResult, decide, has_hard_failure, medium,
}
use hommey.Evaluation.Metadata.{
  TurnEvaluationFacts, TurnEvaluationMetadata, degraded, extract_facts, failed, idempotent_replay,
  interrupted,
}
use hommey.Evaluation.Rules.{intersects, policy_skills, run_rules}
use hommey.Evaluation.Rows.{Db, Run}
use hommey.Evaluation.Queue
use hommey.Evaluation.Queue.{claim_pending, complete, recover_expired_leases, skip}
use hommey.Text.{codes, is_nonempty}
use hommey.Prelude.{
  Bool, List, Option, String, [], all, elem, false, if◌then◌else◌, length, ltb, max, min, none, not,
  or_else, some, true, ℕ, ◌&&◌, ◌++◌, ◌==◌, ◌^◌, ◌||◌, ◌∷◌, String_eq, ℕ_eq,
}

pub record Worker : Type 0 where
  pub worker_id : String
  pub has_judge_agent : Bool
  pub concurrency : ℕ
  pub lease_seconds : ℕ
  pub sample_rate : ℕ  -- in units of 2⁻⁶⁴
  pub judge_enabled : Bool

-- `__init__`, its `worker_id` given
unfoldable pub worker : String → Bool → ℕ → ℕ → ℕ → Option Bool → Worker
worker worker_id has_judge_agent concurrency lease_seconds sample_rate judge_enabled = record {
  worker_id = worker_id;
  has_judge_agent = has_judge_agent;
  concurrency = max 1 concurrency;
  lease_seconds = max 1 lease_seconds;
  sample_rate = min sample_rate (2 ^ 64);
  judge_enabled = or_else judge_enabled has_judge_agent;
}

-- What the worker calls that is not of this program: the digest behind `_stable_sample`, in units
-- of 2⁻⁶⁴, the validation of a document, and the judge: `none` is an exception or its timeout.
pub record Services : Type 0 where
  pub stable_sample : String → ℕ
  pub validates : String → Bool
  pub call_judge : TurnEvaluationMetadata → TurnEvaluationFacts → Option JudgeResult

abbrev pub is_only_chitchat : List String → Bool
is_only_chitchat skills = is_nonempty skills && all (λ s. s == "chitchat") skills

abbrev pub sample_verdict : Bool → Bool × String
sample_verdict sampled = (sampled, if sampled then "" else "SKIP_NOT_SAMPLED")

-- the lines of `_judge_eligibility` after the one on chitchat
abbrev pub eligible_state : Services → Worker → TurnEvaluationMetadata → Bool × String
eligible_state v w m =
    let by_skill =
      if intersects m.routing.selected_skills policy_skills
      then (true, "")
      else sample_verdict (ltb (v.stable_sample m.subject.request_id) w.sample_rate) in
    elim m.execution.terminal_state [ failed ↦ (false, "") | degraded ↦ (true, "") | _ ↦ by_skill ]

-- `_judge_eligibility`
unfoldable pub judge_eligibility : Services → Worker → TurnEvaluationMetadata → Bool × String
unfolding policy_skills
judge_eligibility v w m =
    let skills = m.routing.selected_skills in
    let rest =
      if is_only_chitchat skills || not (is_nonempty skills) && elem "chitchat" m.routing.intents
      then (false, "SKIP_CHITCHAT")
      else eligible_state v w m in
    elim m.execution.terminal_state [
      | interrupted ↦ (false, "SKIP_INTERRUPTED")
      | idempotent_replay ↦ (false, "SKIP_IDEMPOTENT_REPLAY")
      | _ ↦ rest
    ]

unavailable : String → RuleResult
unavailable message = record {
  code = "JUDGE_UNAVAILABLE";
  severity = medium;
  message = codes message;
  subject_ref = "versions";
  hard = false;
}

-- The rules as the judge's call leaves them, and its result.
unfoldable pub consult :
    Services
    → Worker
    → TurnEvaluationMetadata
    → TurnEvaluationFacts
    → Bool
    → List RuleResult
    → List RuleResult × Option JudgeResult
unfolding unavailable
consult v w m f judge_expected rules =
    if judge_expected
    then (if w.has_judge_agent
        then elim (v.call_judge m f) [
          | none ↦ (rules ++ unavailable "Judge 调用或结构化输出失败。" ∷ [], none)
          | some j ↦ (rules, some j)
        ]
        else (rules ++ unavailable "Judge 未配置或当前不可用。" ∷ [], none))
    else (rules, none)

-- The result that `_evaluate` completes a row with.
unfoldable pub evaluated : Services → Worker → TurnEvaluationMetadata → FinalEvaluationResult
unfolding consult judge_eligibility extract_facts run_rules decide
evaluated v w m =
    let f = extract_facts m in
    let rules = run_rules v.validates m f in
    let judge_expected =
      (judge_eligibility v w m).0 && w.judge_enabled && not (has_hard_failure rules) in
    let c = consult v w m f judge_expected rules in decide c.0 c.1 judge_expected

-- `_evaluate`: `none` for the payload is one that is missing or no valid metadata. The statements
-- run at `now`, and `latency_ms` is measured.
unfoldable pub evaluate : Services → Worker → ℕ → ℕ → Run × Option TurnEvaluationMetadata → Db → Db
unfolding judge_eligibility
evaluate v w now latency_ms (row, none) db =
    (Queue.fail now row.evaluation_id w.worker_id "EVALUATION_FACT_EXTRACTION_FAILED" db).1
evaluate v w now latency_ms (row, some m) db =
    let skip_reason = (judge_eligibility v w m).1 in
    if skip_reason == ""
    then (complete now row.evaluation_id w.worker_id (evaluated v w m) none (some latency_ms) db).1
    else (skip now row.evaluation_id w.worker_id skip_reason db).1

-- The rows of a batch, in the order in which they write; each brings its time and its latency.
unfoldable pub evaluate_all :
    Services → Worker → (String → ℕ × ℕ) → List (Run × Option TurnEvaluationMetadata) → Db → Db
evaluate_all v w clock [] db = db
evaluate_all v w clock (row ∷ rows) db =
    evaluate_all v w clock rows
      (evaluate v w (clock row.0.evaluation_id).0 (clock row.0.evaluation_id).1 row db)

-- `run_once`: the number of claimed rows, and the tables.
unfoldable pub run_once : Services → Worker → ℕ → ℕ → (String → ℕ × ℕ) → Db → ℕ × Db
unfolding evaluate_all
run_once v w max_attempts now clock db =
    let claim =
      claim_pending now w.worker_id w.concurrency w.lease_seconds
        (recover_expired_leases now max_attempts db).1 in
    (length claim.0, evaluate_all v w clock claim.0 claim.1)
