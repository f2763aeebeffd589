-- ===== src/Evaluation/Settling.antt =====
-- evaluation/worker.py: what becomes of the runs that `run_once` claims.
use hommey.Evaluation.Metadata.{TurnEvaluationMetadata}
use hommey.Evaluation.Rows.{Db, Run, is_running, RunStatus, Subject, is_final}
use hommey.Evaluation.Queue.{
  ended, is_held, write_held, claim_pending, claimed_ids, complete, fail, finish_state, finished,
  is_lost, payload_of, recover_expired_leases, recovered, skip, started,
}
use hommey.Evaluation.Queue
use hommey.Evaluation.Worker.{
  Services, Worker, evaluate, evaluate_all, evaluated, judge_eligibility, run_once,
}
use hommey.Prelude.{
  All, All-In, All-imp, All-keep, Bool, Bool-cases, In, In-All, List, Option, String, [], any,
  arith, elem, eq_iff, eq_refl, false, inl, inr, keep, map, none, refl, some, sym, true,
  update_where, ℕ, ◌&&◌, ◌==◌, ◌||◌, ◌∷◌, ◌≡◌, String_eq, ℕ_eq,
}

-- The run is in the worker's hands.
abbrev pub is_owned : String → Run → Bool
is_owned w r = is_running r.status && elim r.lease_owner [ none ↦ false | some v ↦ v == w ]

abbrev stands_in : List (Run × Option TurnEvaluationMetadata) → Run → Bool
stands_in rows r = any (λ x. x.0.evaluation_id == r.evaluation_id) rows

-- What is in the worker's hands is among the rows, and of the ids each run is final or so.
record IsCovered (ids : List String) (w : String)
    (rows : List (Run × Option TurnEvaluationMetadata)) (r : Run) : Type 0 where
  open_rows : is_owned w r ≡ true → stands_in rows r ≡ true
  claimed_rows :
      elem r.evaluation_id ids ≡ true
      → (is_final r.status || (is_owned w r && stands_in rows r)) ≡ true

All-update :
    {P Q : Run → Type 0} (p : Run → Bool) (f : Run → Run) (rs : List Run)
    → ((r : Run) → p r ≡ true → P r → Q (f r))
    → ((r : Run) → p r ≡ false → P r → Q r)
    → All P rs
    → All Q (update_where p f rs)
All-update p f [] k l h = tt
All-update p f (r ∷ rs) k l h = elim (Bool-cases (p r)) [
  | inl b ↦ (rw b (k r b h.0), All-update p f rs k l h.1)
  | inr b ↦ (rw b (l r b h.0), All-update p f rs k l h.1)
]

final-owned : (w : String) (r : Run) → is_final r.status ≡ true → is_owned w r ≡ true → ⊥
final-owned w r f o = ground (arith, f, o)

write-IsCovered :
    (ids : List String) (w : String) (m : Option TurnEvaluationMetadata) (row : Run)
    (rows : List (Run × Option TurnEvaluationMetadata)) (f : Run → Run) (db : Db)
    → ((r : Run) → is_final (f r).status ≡ true)
    → All (IsCovered ids w ((row, m) ∷ rows)) db.runs
    → All (IsCovered ids w rows) (write_held row.evaluation_id w f db).1.runs
unfolding write_held
write-IsCovered ids w m row rows f db ends h =
    All-update (is_held row.evaluation_id w) f db.runs
      (λ r b c. record {
        open_rows = λ o. absurd (final-owned w (f r) (ends r) o);
        claimed_rows = λ e. rw (ends r) refl;
      })
      (λ r b c. record {
        open_rows = λ o. ground (
          arith,
          b,
          c.open_rows o,
          o,
          eq_iff row.evaluation_id r.evaluation_id,
          eq_iff r.evaluation_id row.evaluation_id,
        );
        claimed_rows = λ e. ground (
          arith,
          b,
          c.claimed_rows e,
          eq_iff row.evaluation_id r.evaluation_id,
          eq_iff r.evaluation_id row.evaluation_id,
        );
      })
      h

evaluate-IsCovered :
    (ids : List String) (v : Services) (k : Worker) (now latency : ℕ) (row : Run)
    (m : Option TurnEvaluationMetadata) (rows : List (Run × Option TurnEvaluationMetadata))
    (db : Db)
    → All (IsCovered ids k.worker_id ((row, m) ∷ rows)) db.runs
    → All (IsCovered ids k.worker_id rows) (evaluate v k now latency (row, m) db).runs
unfolding evaluate complete Queue.skip Queue.fail finish_state
evaluate-IsCovered ids v k now latency row none rows db h =
    write-IsCovered ids k.worker_id none row rows
      (ended now RunStatus.failed "EVALUATION_FACT_EXTRACTION_FAILED") db (λ r. refl) h
evaluate-IsCovered ids v k now latency row (some m) rows db h =
    let reason = (judge_eligibility v k m).1 in
    elim (Bool-cases (reason == "")) [
      | inl b ↦
          rw (b, evaluate)
            (write-IsCovered ids k.worker_id (some m) row rows
              (finished now (evaluated v k m) none (some latency)) db (λ r. refl) h)
      | inr b ↦
          rw (b, evaluate)
            (write-IsCovered ids k.worker_id (some m) row rows (ended now RunStatus.skipped reason)
              db (λ r. refl) h)
    ]

evaluate_all-IsCovered :
    (ids : List String) (v : Services) (k : Worker) (clock : String → ℕ × ℕ)
    (rows : List (Run × Option TurnEvaluationMetadata)) (db : Db)
    → All (IsCovered ids k.worker_id rows) db.runs
    → All (IsCovered ids k.worker_id []) (evaluate_all v k clock rows db).runs
unfolding evaluate_all
evaluate_all-IsCovered ids v k clock [] db h = h
evaluate_all-IsCovered ids v k clock ((row, m) ∷ rows) db h =
    let t = clock row.evaluation_id in
    evaluate_all-IsCovered ids v k clock rows (evaluate v k t.0 t.1 (row, m) db)
      (evaluate-IsCovered ids v k t.0 t.1 row m rows db h)

-- Nothing is in the worker's hands.
abbrev pub IsIdle : String → Db → Type 0
IsIdle w db = All (λ r. is_owned w r ≡ false) db.runs

recover-IsIdle :
    (now max_attempts : ℕ) (w : String) (db : Db)
    → IsIdle w db
    → IsIdle w (recover_expired_leases now max_attempts db).1
unfolding recover_expired_leases
recover-IsIdle now max_attempts w db h =
    All-update (is_lost now) (recovered now max_attempts) db.runs (λ r b o. ground arith)
      (λ r b o. o) h

any-claimed :
    (now : ℕ) (w : String) (lease : ℕ) (ss : List Subject) (taken : Run → Bool) (r : Run)
    (rs : List Run)
    → taken r ≡ true
    → In r rs
    → any
        (λ (x : Run × Option TurnEvaluationMetadata). x.0.evaluation_id == r.evaluation_id)
        (map (λ x. (started now w lease x, payload_of ss x)) (keep taken rs))
      ≡ true
any-claimed now w lease ss taken r [] b i = absurd i
any-claimed now w lease ss taken r (x ∷ rs) b (inl e) =
    rw (e, b) (ground (arith, eq_refl r.evaluation_id))
any-claimed now w lease ss taken r (x ∷ rs) b (inr i) = elim (Bool-cases (taken x)) [
  | inl c ↦ rw c (ground (arith, any-claimed now w lease ss taken r rs b i))
  | inr c ↦ rw c (any-claimed now w lease ss taken r rs b i)
]

claim-IsCovered :
    (now : ℕ) (w : String) (n lease : ℕ) (db : Db)
    → IsIdle w db
    → All
        (IsCovered (claimed_ids n db.runs) w (claim_pending now w n lease db).0)
        (claim_pending now w n lease db).1.runs
unfolding claim_pending
claim-IsCovered now w n lease db h =
    let taken = λ (r : Run). elem r.evaluation_id (claimed_ids n db.runs) in
    All-update {P = λ (r : Run). In r db.runs × (is_owned w r ≡ false)} taken (started now w lease)
      db.runs
      (λ r b p.
        let c = any-claimed now w lease db.subjects taken r db.runs b p.0 in
        record { open_rows = λ o. c; claimed_rows = λ e. ground (arith, c, eq_refl w) })
      (λ r b p. record {
        open_rows = λ o. ground (arith, p.1, o);
        claimed_rows = λ e. ground (arith, b, e);
      })
      (All-In _ db.runs (λ r i. (i, In-All (λ (x : Run). is_owned w x ≡ false) db.runs r h i)))

not_true : (b : Bool) → (b ≡ true → false ≡ true) → b ≡ false
not_true true c = sym (c refl)
not_true false c = refl

-- A worker that holds no run holds none after `run_once`, and each run that it claimed, the oldest
-- pending ones up to its concurrency, is completed, skipped or failed by then, whatever the judge,
-- the clock, the payloads and the rules do.
pub run_once-IsIdle :
    (v : Services) (k : Worker) (max_attempts now : ℕ) (clock : String → ℕ × ℕ) (db : Db)
    → IsIdle k.worker_id db
    → IsIdle k.worker_id (run_once v k max_attempts now clock db).1
      × All
          (λ r. is_final r.status ≡ true)
          (keep
            (λ r.
              elem r.evaluation_id
                (claimed_ids k.concurrency (recover_expired_leases now max_attempts db).1.runs))
            (run_once v k max_attempts now clock db).1.runs)
unfolding run_once
run_once-IsIdle v k max_attempts now clock db h =
    let found = (recover_expired_leases now max_attempts db).1 in
    let claim = claim_pending now k.worker_id k.concurrency k.lease_seconds found in
    let ids = claimed_ids k.concurrency found.runs in
    let all = evaluate_all-IsCovered ids v k clock claim.0 claim.1 (
      claim-IsCovered now k.worker_id k.concurrency k.lease_seconds found
        (recover-IsIdle now max_attempts k.worker_id db h)) in
    (
      All-imp _ (λ r c. not_true (is_owned k.worker_id r) c.open_rows) all,
      All-keep (λ (r : Run). elem r.evaluation_id ids) (λ r. is_final r.status ≡ true) _
          (All-imp _ (λ r c e. ground (arith, c.claimed_rows e)) all),
    )
