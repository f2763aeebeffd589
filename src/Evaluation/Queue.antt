-- ===== src/Evaluation/Queue.antt =====
-- evaluation/repository.py: its methods, each one transaction; `now` is its `NOW()`.
use hommey.Verdict.{FinalEvaluationResult}
use hommey.Evaluation.Metadata.{TurnEvaluationMetadata}
use hommey.Evaluation.Rows.{Db, Run, RunStatus, Subject, is_pending, is_running, pending, running}
use hommey.Prelude.{
  Bool, List, Option, String, [], count, elem, false, find_by, if◌then◌else◌, keep, leb, ltb, map,
  max, none, or_else, some, take, update_where, ℕ, ◌&&◌, ◌++◌, ◌+◌, ◌==◌, ◌∷◌, String_eq, ℕ_eq,
}

-- How a run is evaluated: the last four arguments of `create_subject_and_run`.
pub record Evaluator : Type 0 where
  pub evaluator_version : String
  pub judge_model : String
  pub judge_prompt_version : String
  pub rubric_version : String

-- NULLIF(s, '')
abbrev pub null_if_empty : String → Option String
null_if_empty s = if s == "" then none else some s

-- `payload_hash` is the digest of the payload's JSON.
abbrev pub new_subject : String → String → TurnEvaluationMetadata → Subject
new_subject subject_id payload_hash m = record {
  subject_id = subject_id;
  request_id = m.subject.request_id;
  session_id = m.subject.session_id;
  run_id = null_if_empty m.subject.run_id;
  turn_id = null_if_empty m.subject.turn_id;
  capture_mode = m.capture_mode;
  schema_version = m.schema_version;
  payload = m;
  producer_versions = m.versions;
  payload_hash = payload_hash;
}

abbrev pub new_run : ℕ → String → String → Evaluator → Run
new_run now evaluation_id subject_id e = record {
  evaluation_id = evaluation_id;
  subject_id = subject_id;
  status = pending;
  evaluator_version = e.evaluator_version;
  judge_model = e.judge_model;
  judge_prompt_version = e.judge_prompt_version;
  rubric_version = e.rubric_version;
  result = none;
  attempts = 0;
  lease_owner = none;
  lease_expires_at = none;
  token_usage = "{}";
  latency_ms = none;
  error_code = none;
  created_at = now;
  started_at = none;
  completed_at = none;
}

abbrev pub of_request : String → Subject → Bool
of_request request_id s = s.request_id == request_id

abbrev pub of_subject : String → String → Run → Bool
of_subject subject_id version r = r.subject_id == subject_id && r.evaluator_version == version

-- INSERT … ON CONFLICT (…) DO NOTHING, then the row that stands there
abbrev pub insert_new {ℓ} : {A : Type ℓ} → (A → Bool) → A → List A → A × List A
insert_new conflicts row rows = elim (find_by conflicts rows) [
  | none ↦ (row, rows ++ row ∷ [])
  | some old ↦ (old, rows)
]

-- The two fresh ids, and the hash; the result is the pair of ids.
unfoldable pub create_subject_and_run :
    ℕ → String → String → String → TurnEvaluationMetadata → Evaluator → Db → (String × String) × Db
create_subject_and_run now subject_id evaluation_id payload_hash m e db =
    let s =
      insert_new (of_request m.subject.request_id) (new_subject subject_id payload_hash m)
        db.subjects in
    let r =
      insert_new (of_subject s.0.subject_id e.evaluator_version)
        (new_run now evaluation_id s.0.subject_id e) db.runs in
    ((s.0.subject_id, r.0.evaluation_id), record db { subjects = s.1; runs = r.1 })

-- ORDER BY, ties in the order of the rows
unfoldable pub insert_by {ℓ} : {A : Type ℓ} → (A → ℕ) → A → List A → List A
insert_by key x [] = x ∷ []
insert_by key x (y ∷ ys) = if ltb (key y) (key x) then y ∷ insert_by key x ys else x ∷ y ∷ ys

unfoldable pub order_by {ℓ} : {A : Type ℓ} → (A → ℕ) → List A → List A
unfolding insert_by
order_by key [] = []
order_by key (x ∷ xs) = insert_by key x (order_by key xs)

abbrev pub with_runs : Db → List Run → Db
with_runs db rs = record db { runs = rs }

abbrev pub started : ℕ → String → ℕ → Run → Run
started now worker_id lease_seconds r = record r {
  status = running;
  lease_owner = some worker_id;
  lease_expires_at = some (now + max 1 lease_seconds);
  attempts = r.attempts + 1;
  started_at = some (or_else r.started_at now);
}

-- The ids of the runs that a claim takes. With no other transaction open, `SKIP LOCKED` skips none.
unfoldable pub claimed_ids : ℕ → List Run → List String
unfolding order_by
claimed_ids batch_size rs =
    map (λ r. r.evaluation_id)
      (take (max 1 batch_size) (order_by (λ r. r.created_at) (keep (λ r. is_pending r.status) rs)))

abbrev pub payload_of : List Subject → Run → Option TurnEvaluationMetadata
payload_of ss r = elim (find_by (λ s. s.subject_id == r.subject_id) ss) [
  | none ↦ none
  | some s ↦ some s.payload
]

-- The written rows, each with its subject's payload.
unfoldable pub claim_pending :
    ℕ → String → ℕ → ℕ → Db → List (Run × Option TurnEvaluationMetadata) × Db
unfolding claimed_ids
claim_pending now worker_id batch_size lease_seconds db =
    let ids = claimed_ids batch_size db.runs in
    let taken = λ (r : Run). elem r.evaluation_id ids in
    (
      map (λ r. (started now worker_id lease_seconds r, payload_of db.subjects r))
          (keep taken db.runs),
      with_runs db (update_where taken (started now worker_id lease_seconds) db.runs),
    )

abbrev pub is_expired : ℕ → Option ℕ → Bool
is_expired now none = false
is_expired now (some t) = ltb t now

abbrev pub is_lost : ℕ → Run → Bool
is_lost now r = is_running r.status && is_expired now r.lease_expires_at

abbrev pub recovered : ℕ → ℕ → Run → Run
recovered now max_attempts r =
    let exhausted = leb max_attempts r.attempts in
    record r {
      status = if exhausted then RunStatus.failed else RunStatus.pending;
      error_code = if exhausted then some "EVALUATION_MAX_ATTEMPTS" else none;
      lease_owner = none;
      lease_expires_at = none;
      completed_at = if exhausted then some now else r.completed_at;
    }

-- The number of rows, and the tables.
unfoldable pub recover_expired_leases : ℕ → ℕ → Db → ℕ × Db
recover_expired_leases now max_attempts db = (
  count (is_lost now) db.runs,
  with_runs db (update_where (is_lost now) (recovered now max_attempts) db.runs),
)

-- WHERE evaluation_id = … AND status = 'running' AND lease_owner = …
abbrev pub is_held : String → String → Run → Bool
is_held evaluation_id worker_id r =
    r.evaluation_id == evaluation_id
    && is_running r.status
    && elim r.lease_owner [ none ↦ false | some w ↦ w == worker_id ]

-- A write by the holder of a run's lease, and whether one row was written.
unfoldable pub write_held : String → String → (Run → Run) → Db → Bool × Db
write_held evaluation_id worker_id f db = (
  count (is_held evaluation_id worker_id) db.runs == 1,
  with_runs db (update_where (is_held evaluation_id worker_id) f db.runs),
)

abbrev pub finished : ℕ → FinalEvaluationResult → Option String → Option ℕ → Run → Run
finished now result token_usage latency_ms r = record r {
  status = RunStatus.completed;
  result = some result;
  token_usage = or_else token_usage "{}";
  latency_ms = latency_ms;
  lease_owner = none;
  lease_expires_at = none;
  completed_at = some now;
}

unfoldable pub complete :
    ℕ → String → String → FinalEvaluationResult → Option String → Option ℕ → Db → Bool × Db
unfolding write_held
complete now evaluation_id worker_id result token_usage latency_ms =
    write_held evaluation_id worker_id (finished now result token_usage latency_ms)

abbrev pub ended : ℕ → RunStatus → String → Run → Run
ended now status error_code r = record r {
  status = status;
  error_code = some error_code;
  lease_owner = none;
  lease_expires_at = none;
  completed_at = some now;
}

-- `_finish_state`
unfoldable pub finish_state : ℕ → String → String → RunStatus → String → Db → Bool × Db
unfolding write_held
finish_state now evaluation_id worker_id status error_code =
    write_held evaluation_id worker_id (ended now status error_code)

unfoldable pub skip : ℕ → String → String → String → Db → Bool × Db
unfolding finish_state
skip now evaluation_id worker_id reason =
    finish_state now evaluation_id worker_id RunStatus.skipped reason

unfoldable pub fail : ℕ → String → String → String → Db → Bool × Db
unfolding finish_state
fail now evaluation_id worker_id error_code =
    finish_state now evaluation_id worker_id RunStatus.failed error_code
