-- ===== src/Refresh/Queue.antt =====
-- rag/refresh_jobs.py: the statements on the rows, and the methods of the repository.
use hommey.Refresh.Rows.{
  Db, Job, JobStatus, Repository, StatusPayload, error, is_active, is_queued, is_running,
  partial_success, queued, running, status_payload, success,
}
use hommey.Prelude.{
  Bool, Dict, List, Option, Result, String, [], any, err, false, if◌then◌else◌, insert, is_some,
  keep, leb, lookup, ltb, min, none, ok, or_else, some, true, update_where, ℕ, ◌&&◌, ◌++◌, ◌+◌,
  ◌==◌, ◌∷◌, String_eq, ℕ_eq,
}

abbrev with_jobs : Db → List Job → Db
with_jobs db js = record db { jobs = js }

-- INSERT … ON CONFLICT DO NOTHING
abbrev ensured : String → Dict ℕ → Dict ℕ
ensured k d = elim (lookup k d) [ none ↦ insert k 0 d | some n ↦ d ]

-- `none` for `publish` is an exception of it, which rolls the transaction back.
unfoldable pub run_source_change {ℓ} :
    {A : Type ℓ} → Repository → Option A → Db → Option (A × ℕ) × Db
run_source_change r none db = (none, db)
run_source_change r (some a) db =
    let generation = or_else (lookup r.collection_name db.generations) 0 + 1 in
    (
      some (a, generation),
      record db {
        generations =
            insert r.collection_name generation (ensured r.collection_name db.generations);
      },
    )

pub data EnqueueError : Type 0 where
  active_refresh_job snapshot_failed : EnqueueError

abbrev pub has_active : String → List Job → Bool
has_active c js = any (λ j. j.collection_name == c && is_active j.status) js

abbrev pub new_job : ℕ → Repository → String → String → ℕ → String → Job
new_job now r job_id requested_by generation manifest = record {
  job_id = job_id;
  collection_name = r.collection_name;
  status = queued;
  stage = "等待知识库刷新任务执行";
  progress = 5;
  requested_by = requested_by;
  source_generation = generation;
  source_manifest = manifest;
  result_manifest = none;
  report = none;
  message = none;
  error = none;
  lease_owner = none;
  lease_expires_at = none;
  attempt = 0;
  max_attempts = r.max_attempts;
  next_attempt_at = now;
  created_at = now;
  started_at = none;
  finished_at = none;
  updated_at = now;
}

-- `job_id` is the fresh UUID; `none` for the manifest is an exception of `snapshot_factory`.
unfoldable pub enqueue :
    ℕ → Repository → String → String → Option String → Db → Result EnqueueError StatusPayload × Db
unfolding status_payload
enqueue now r job_id requested_by manifest db =
    if has_active r.collection_name db.jobs then (err active_refresh_job, db) else (elim manifest [
      | none ↦ (err snapshot_failed, db)
      | some m ↦
          let generation = or_else (lookup r.collection_name db.generations) 0 in
          let job = new_job now r job_id requested_by generation m in
          (
            ok (status_payload (some job)),
            record db {
              jobs = db.jobs ++ job ∷ [];
              generations = ensured r.collection_name db.generations;
            },
          )
    ])

-- ORDER BY … LIMIT 1: the first row that no other row comes before
abbrev pub first_by : (Job → Job → Bool) → List Job → Option Job
first_by before [] = none
first_by before (j ∷ js) = elim (first_by before js) [
  | none ↦ some j
  | some k ↦ if before k j then some k else some j
]

unfoldable pub latest_status : Repository → Db → StatusPayload
unfolding status_payload
latest_status r db = status_payload (
    first_by (λ a b. ltb b.created_at a.created_at)
      (keep (λ j. j.collection_name == r.collection_name) db.jobs))

abbrev finished_before : Option ℕ → Option ℕ → Bool
finished_before (some a) (some b) = ltb b a
finished_before (some a) none = true
finished_before none b = false

abbrev is_success : JobStatus → Bool
is_success success = true
is_success partial_success = true
is_success _ = false

-- An empty object is taken for none.
abbrev nonempty : Option String → Option String
nonempty none = none
nonempty (some m) = if m == "{}" then none else some m

unfoldable pub latest_manifest : Repository → Db → Option String
latest_manifest r db =
    elim (first_by (λ a b. finished_before a.finished_at b.finished_at)
      (keep
        (λ j.
          j.collection_name == r.collection_name
          && is_success j.status
          && is_some j.result_manifest)
        db.jobs)) [ none ↦ none | some j ↦ nonempty j.result_manifest ]

-- lease_expires_at < NOW(), which a NULL is not
abbrev pub is_expired : ℕ → Option ℕ → Bool
is_expired now none = false
is_expired now (some t) = ltb t now

abbrev pub is_lost : ℕ → Repository → Job → Bool
is_lost now r j =
    j.collection_name == r.collection_name
    && is_running j.status
    && is_expired now j.lease_expires_at

-- The first statement of `claim`: what becomes of a running job whose lease expired.
abbrev pub recovered : ℕ → Job → Job
recovered now j =
    let exhausted = leb j.max_attempts j.attempt in
    record j {
      status = if exhausted then error else queued;
      stage = if exhausted then "知识库刷新重试次数已耗尽" else "等待故障恢复重试";
      message = if exhausted then some "刷新 worker 租约过期且重试次数已耗尽" else j.message;
      error = if exhausted then some (or_else j.error "refresh worker lease expired") else j.error;
      next_attempt_at = now;
      lease_owner = none;
      lease_expires_at = none;
      finished_at = if exhausted then some now else none;
      updated_at = now;
    }

abbrev pub is_due : ℕ → Repository → Job → Bool
is_due now r j =
    j.collection_name == r.collection_name && is_queued j.status && leb j.next_attempt_at now

abbrev pub started : ℕ → Repository → String → Job → Job
started now r worker_id j = record j {
  status = running;
  stage = "正在准备知识库刷新";
  progress = 8;
  lease_owner = some worker_id;
  lease_expires_at = some (now + r.lease_seconds);
  attempt = j.attempt + 1;
  started_at = some (or_else j.started_at now);
  updated_at = now;
}

-- ORDER BY created_at LIMIT 1 among the jobs that may start
abbrev pub oldest_due : ℕ → Repository → List Job → Option Job
oldest_due now r js = first_by (λ a b. ltb a.created_at b.created_at) (keep (is_due now r) js)

-- With no other transaction open, `SKIP LOCKED` skips nothing. The row comes back as written.
unfoldable pub claim : ℕ → Repository → String → Db → Option Job × Db
claim now r worker_id db =
    let js = update_where (is_lost now r) (recovered now) db.jobs in
    elim (oldest_due now r js) [
      | none ↦ (none, with_jobs db js)
      | some c ↦ (
        some (started now r worker_id c),
        with_jobs db (update_where (λ j. j.job_id == c.job_id) (started now r worker_id) js),
      )
    ]

-- WHERE job_id=… AND status='running' AND lease_owner=…
abbrev pub is_held : String → String → Job → Bool
is_held job_id worker_id j =
    j.job_id == job_id
    && is_running j.status
    && elim j.lease_owner [ none ↦ false | some w ↦ w == worker_id ]

-- A write by the holder of a job's lease, and whether a row was written.
abbrev pub write_held : String → String → (Job → Job) → Db → Bool × Db
write_held job_id worker_id f db = (
  any (is_held job_id worker_id) db.jobs,
  with_jobs db (update_where (is_held job_id worker_id) f db.jobs),
)

unfoldable pub renew : ℕ → Repository → String → String → Db → Bool × Db
renew now r job_id worker_id =
    write_held job_id worker_id
      λ j. record j { lease_expires_at = some (now + r.lease_seconds); updated_at = now }

-- `progress` is the integer given, cut off below at 0
unfoldable pub update_progress : ℕ → String → String → String → ℕ → Db → Bool × Db
update_progress now job_id worker_id stage progress =
    write_held job_id worker_id
      λ j. record j { stage = stage; progress = min 99 progress; updated_at = now }
