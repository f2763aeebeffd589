-- ===== src/Refresh/Rows.antt =====
-- rag/refresh_jobs.py: the rows of `rag_refresh_jobs`, and what a caller sees of one.
use hommey.Prelude.{Bool, Dict, List, Option, String, false, max, none, some, true, ℕ}

pub data JobStatus : Type 0 where
  queued running success partial_success error : JobStatus

-- A row. Times are seconds, and a `jsonb` column holds its text.
pub record Job : Type 0 where
  pub job_id : String
  pub collection_name : String
  pub status : JobStatus
  pub stage : String
  pub progress : ℕ
  pub requested_by : String
  pub source_generation : ℕ
  pub source_manifest : String
  pub result_manifest : Option String
  pub report : Option String
  pub message : Option String
  pub error : Option String
  pub lease_owner : Option String
  pub lease_expires_at : Option ℕ
  pub attempt : ℕ
  pub max_attempts : ℕ
  pub next_attempt_at : ℕ
  pub created_at : ℕ
  pub started_at : Option ℕ
  pub finished_at : Option ℕ
  pub updated_at : ℕ

abbrev pub is_queued : JobStatus → Bool
is_queued queued = true
is_queued _ = false

abbrev pub is_running : JobStatus → Bool
is_running running = true
is_running _ = false

-- status IN ('queued', 'running')
abbrev pub is_active : JobStatus → Bool
is_active queued = true
is_active running = true
is_active _ = false

-- The tables that the repository writes.
pub record Db : Type 0 where
  pub jobs : List Job
  pub generations : Dict ℕ
  pub heartbeats : Dict (String × ℕ × String)

pub record Repository : Type 0 where
  pub collection_name : String
  pub lease_seconds : ℕ
  pub max_attempts : ℕ
  pub retry_delay_seconds : ℕ

-- `__init__`, past the check of the DSN
unfoldable pub repository : String → ℕ → ℕ → ℕ → Repository
repository collection_name lease_seconds max_attempts retry_delay_seconds = record {
  collection_name = collection_name;
  lease_seconds = max 15 lease_seconds;
  max_attempts = max 1 max_attempts;
  retry_delay_seconds = max 1 retry_delay_seconds;
}

-- `_status_payload` of a row, or of none
pub record StatusPayload : Type 0 where
  pub job_id : Option String
  pub status : Option JobStatus  -- `none` is "idle"
  pub stage : String
  pub progress : ℕ
  pub requested_by : Option String
  pub source_generation : Option ℕ
  pub attempt : ℕ
  pub started_at : Option ℕ
  pub finished_at : Option ℕ
  pub report : Option String
  pub message : Option String
  pub lease_owner : Option String
  pub lease_expires_at : Option ℕ

unfoldable pub status_payload : Option Job → StatusPayload
status_payload none = record {
  job_id = none;
  status = none;
  stage = "知识库已就绪";
  progress = 0;
  requested_by = none;
  source_generation = none;
  attempt = 0;
  started_at = none;
  finished_at = none;
  report = none;
  message = none;
  lease_owner = none;
  lease_expires_at = none;
}
status_payload (some j) = record {
  job_id = some j.job_id;
  status = some j.status;
  stage = j.stage;
  progress = j.progress;
  requested_by = some j.requested_by;
  source_generation = some j.source_generation;
  attempt = j.attempt;
  started_at = elim j.started_at [ some t ↦ some t | none ↦ some j.created_at ];
  finished_at = j.finished_at;
  report = j.report;
  message = j.message;
  lease_owner = j.lease_owner;
  lease_expires_at = j.lease_expires_at;
}
