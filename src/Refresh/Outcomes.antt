-- ===== src/Refresh/Outcomes.antt =====
-- rag/refresh_jobs.py: how a worker ends a job, and its heartbeat.
use hommey.Refresh.Rows.{Db, Job, JobStatus, Repository, error, partial_success, queued, success}
use hommey.Refresh.Queue.{write_held}
use hommey.Prelude.{
  Bool, List, Option, String, [], false, if◌then◌else◌, insert, ltb, none, or_else, some, suc, zero,
  ℕ, ◌&&◌, ◌+◌, ◌==◌, ◌∷◌, String_eq, ℕ_eq,
}

-- A refresh report: the texts that the repository reads of it, and its JSON.
pub record Report : Type 0 where
  pub status : Option String
  pub message : Option String
  pub json : String

unfoldable pub report_status : Report → JobStatus
report_status r =
    let status = or_else r.status "error" in
    if status == "success"
    then success
    else if status == "partial_success"
    then partial_success
    else error

unfoldable pub report_stage : JobStatus → String
report_stage success = "知识库刷新完成"
report_stage _ = "知识库刷新完成，但有部分文档失败"

abbrev pub completed : ℕ → Report → String → Job → Job
completed now report result_manifest j = record j {
  status = report_status report;
  stage = report_stage (report_status report);
  progress = 100;
  report = some report.json;
  result_manifest = some result_manifest;
  message = report.message;
  error = none;
  lease_owner = none;
  lease_expires_at = none;
  finished_at = some now;
  updated_at = now;
}

unfoldable pub complete : ℕ → String → String → Report → String → Db → Bool × Db
unfolding report_status report_stage
complete now job_id worker_id report result_manifest =
    write_held job_id worker_id (completed now report result_manifest)

-- text[:n]
pub cut : ℕ → String → String
cut zero s = ""
cut (suc n) String.[] = ""
cut (suc n) (String.◌∷◌ c s) = String.◌∷◌ c (cut n s)

abbrev pub failed : ℕ → Repository → Bool → String → Job → Job
failed now r retry text j = record j {
  status = if retry then queued else error;
  stage = if retry then "等待刷新任务重试" else "知识库刷新失败";
  progress = if retry then j.progress else 100;
  message = some (if retry then "刷新失败，正在等待自动重试" else "刷新失败，请检查服务配置后重试");
  error = some text;
  lease_owner = none;
  lease_expires_at = none;
  next_attempt_at = if retry then now + r.retry_delay_seconds else j.next_attempt_at;
  finished_at = if retry then none else some now;
  updated_at = now;
}

-- SELECT … WHERE job_id=…
abbrev pub find_job : String → List Job → Option Job
find_job id [] = none
find_job id (j ∷ js) = if j.job_id == id then some j else find_job id js

unfoldable pub fail : ℕ → Repository → String → String → String → Bool → Db → Bool × Db
fail now r job_id worker_id text retryable db = elim (find_job job_id db.jobs) [
  | none ↦ (false, db)
  | some state ↦
      let retry = retryable && ltb state.attempt state.max_attempts in
      write_held job_id worker_id (failed now r retry (cut 4000 text)) db
]

unfoldable pub heartbeat : ℕ → Repository → String → String → Db → Db
heartbeat now r worker_id metadata db = record db {
  heartbeats = insert worker_id (r.collection_name, now, metadata) db.heartbeats;
}
