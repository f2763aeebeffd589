-- ===== src/Evaluation/Rows.antt =====
-- evaluation/repository.py: the rows of `evaluation_subjects`, `evaluation_runs` and, as far as they
-- are read, of `conversation_messages`.
use hommey.Verdict.{FinalEvaluationResult}
use hommey.Evaluation.Metadata.{CaptureMode, ProducerVersions, TurnEvaluationMetadata}
use hommey.Text.{Text}
use hommey.Prelude.{Bool, List, Option, String, false, true, ℕ}

pub record Subject : Type 0 where
  pub subject_id : String
  pub request_id : String
  pub session_id : String
  pub run_id : Option String
  pub turn_id : Option String
  pub capture_mode : CaptureMode
  pub schema_version : String
  pub payload : TurnEvaluationMetadata
  pub producer_versions : ProducerVersions
  pub payload_hash : String

pub data RunStatus : Type 0 where
  pending running completed skipped failed : RunStatus

-- A row. Times are seconds; `result` is what the columns from `verdict` to `review_required` hold.
pub record Run : Type 0 where
  pub evaluation_id : String
  pub subject_id : String
  pub status : RunStatus
  pub evaluator_version : String
  pub judge_model : String
  pub judge_prompt_version : String
  pub rubric_version : String
  pub result : Option FinalEvaluationResult
  pub attempts : ℕ
  pub lease_owner : Option String
  pub lease_expires_at : Option ℕ
  pub token_usage : String
  pub latency_ms : Option ℕ
  pub error_code : Option String
  pub created_at : ℕ
  pub started_at : Option ℕ
  pub completed_at : Option ℕ

-- A message: its documents are JSON texts, the answer's with the sources that it holds.
pub record Message : Type 0 where
  pub user_id : String
  pub request_id : String
  pub session_id : String
  pub turn_id : Option String
  pub role : String
  pub content : Text
  pub sequence_no : ℕ
  pub is_deleted : Bool
  pub answer_document : Option (String × List String)
  pub presentation_document : Option String
  pub created_at : ℕ

pub record Db : Type 0 where
  pub subjects : List Subject
  pub runs : List Run
  pub messages : List Message

abbrev pub is_pending : RunStatus → Bool
is_pending pending = true
is_pending _ = false

abbrev pub is_running : RunStatus → Bool
is_running running = true
is_running _ = false

-- completed, skipped or failed
abbrev pub is_final : RunStatus → Bool
is_final pending = false
is_final running = false
is_final _ = true
