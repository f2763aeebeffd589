-- ===== src/Evaluation/Reach.antt =====
-- evaluation/repository.py over any run of its methods, by any workers.
use hommey.Verdict.{FinalEvaluationResult}
use hommey.Evaluation.Metadata.{TurnEvaluationMetadata}
use hommey.Evaluation.Rows.{Db, Run, RunStatus, is_final, is_pending}
use hommey.Evaluation.Queue.{
  Evaluator, claim_pending, claimed_ids, complete, create_subject_and_run, ended, finish_state,
  finished, insert_new, is_held, is_lost, new_run, new_subject, of_request, of_subject,
  recover_expired_leases, recovered, skip, started, write_held,
}
use hommey.Evaluation.Queue
use hommey.Evaluation.Leases.{
  IsConsistent, claim-IsConsistent, claimed-pending, create-IsConsistent, has_id, insert_new-cases,
  recover-IsConsistent, write-IsConsistent,
}
use hommey.Prelude.{
  Bool-cases, In, In-append, In-update_where, Option, String, ap, arith, count, elem, false, inl,
  inr, refl, subst, sym, true, ℕ, ◌<◌, ◌==◌, ◌≡◌, String_eq, ℕ_eq,
}

-- One transaction of some process, at some time. A new run has a fresh id, and every worker has the
-- same bound of attempts.
pub data Step (max_attempts : ℕ) (db : Db) : Db → Type 0 where
  creates :
      (now : ℕ) (subject_id id hash : String) (m : TurnEvaluationMetadata) (e : Evaluator)
      → count (has_id id) db.runs ≡ 0
      → Step max_attempts db (create_subject_and_run now subject_id id hash m e db).1
  recovers : (now : ℕ) → Step max_attempts db (recover_expired_leases now max_attempts db).1
  claims :
      (now : ℕ) (w : String) (batch lease : ℕ)
      → Step max_attempts db (claim_pending now w batch lease db).1
  completes :
      (now : ℕ) (id w : String) (result : FinalEvaluationResult) (usage : Option String)
      (latency : Option ℕ)
      → Step max_attempts db (complete now id w result usage latency db).1
  skips : (now : ℕ) (id w reason : String) → Step max_attempts db (Queue.skip now id w reason db).1
  fails : (now : ℕ) (id w code : String) → Step max_attempts db (Queue.fail now id w code db).1

pub data Reach (max_attempts : ℕ) (s : Db) : Db → Type 0 where
  here : Reach max_attempts s s
  next : {t u : Db} → Reach max_attempts s t → Step max_attempts t u → Reach max_attempts s u

Step-IsConsistent :
    {max_attempts : ℕ} {s t : Db}
    → 0 < max_attempts
    → Step max_attempts s t
    → IsConsistent max_attempts s
    → IsConsistent max_attempts t
unfolding complete Queue.skip Queue.fail finish_state
Step-IsConsistent {max_attempts = m} {s} p (creates now sid id hash md e fresh) h =
    create-IsConsistent m now sid id hash md e s p fresh h
Step-IsConsistent {max_attempts = m} {s} p (recovers now) h = recover-IsConsistent m now s h
Step-IsConsistent {max_attempts = m} {s} p (claims now w n lease) h =
    claim-IsConsistent m now w n lease s h
Step-IsConsistent {max_attempts = m} {s} p (completes now id w result usage latency) h =
    write-IsConsistent m id w (finished now result usage latency) s (λ r. refl)
      (λ r k. ground (arith, k)) h
Step-IsConsistent {max_attempts = m} {s} p (skips now id w reason) h =
    write-IsConsistent m id w (ended now RunStatus.skipped reason) s (λ r. refl)
      (λ r k. ground (arith, k)) h
Step-IsConsistent {max_attempts = m} {s} p (fails now id w code) h =
    write-IsConsistent m id w (ended now RunStatus.failed code) s (λ r. refl)
      (λ r k. ground (arith, k)) h

-- Whatever creations, claims, recoveries, completions, skips and failures run from a consistent
-- table, in any order and at any times, by any workers: evaluation ids stay distinct, no run passes
-- the bound of attempts, a pending one has an attempt left, a run has an owner and a lease exactly
-- while it runs, and a time of completion exactly once it is completed, skipped or failed.
pub Reach-runs :
    {max_attempts : ℕ} {s t : Db}
    → 0 < max_attempts
    → Reach max_attempts s t
    → IsConsistent max_attempts s
    → IsConsistent max_attempts t
Reach-runs p here h = h
Reach-runs p (next r st) h = Step-IsConsistent p st (Reach-runs p r h)

final-waits : (r : Run) → is_final r.status ≡ true → is_pending r.status ≡ true → ⊥
final-waits r f p = ground (arith, f, p)

final-lost : (now : ℕ) (r : Run) → is_final r.status ≡ true → is_lost now r ≡ false
final-lost now r f = ground (arith, f)

final-held : (id w : String) (r : Run) → is_final r.status ≡ true → is_held id w r ≡ false
final-held id w r f = elim (Bool-cases (r.evaluation_id == id)) [
  | inl b ↦ ground (arith, f, b)
  | inr b ↦ rw b refl
]

Step-final :
    {max_attempts : ℕ} {s t : Db} (r : Run)
    → Step max_attempts s t
    → IsConsistent max_attempts s
    → is_final r.status ≡ true
    → In r s.runs
    → In r t.runs
unfolding complete Queue.skip Queue.fail finish_state write_held recover_expired_leases
    claim_pending create_subject_and_run
Step-final {max_attempts = m} {s} r (creates now sid id hash md e fresh) h f i =
    let t =
      (insert_new (of_request md.subject.request_id) (new_subject sid hash md) s.subjects).0 in
    elim (insert_new-cases (of_subject t.subject_id e.evaluator_version)
      (new_run now id t.subject_id e) s.runs) [
        | inl o ↦ subst (In r) (sym (ap (λ x. x.1) o.0)) (In-append r s.runs _ i)
        | inr o ↦ subst (In r) (sym (ap (λ x. x.1) o.1)) i
      ]
Step-final {max_attempts = m} {s} r (recovers now) h f i =
    In-update_where (is_lost now) (recovered now m) r s.runs (final-lost now r f) i
Step-final {max_attempts = m} {s} r (claims now w n lease) h f i =
    elim (Bool-cases (elem r.evaluation_id (claimed_ids n s.runs))) [
      | inl b ↦ absurd (final-waits r f (claimed-pending m s n r h i b))
      | inr b ↦
          In-update_where (λ x. elem x.evaluation_id (claimed_ids n s.runs)) (started now w lease) r
            s.runs b i
    ]
Step-final {max_attempts = m} {s} r (completes now id w result usage latency) h f i =
    In-update_where (is_held id w) (finished now result usage latency) r s.runs
      (final-held id w r f) i
Step-final {max_attempts = m} {s} r (skips now id w reason) h f i =
    In-update_where (is_held id w) (ended now RunStatus.skipped reason) r s.runs
      (final-held id w r f) i
Step-final {max_attempts = m} {s} r (fails now id w code) h f i =
    In-update_where (is_held id w) (ended now RunStatus.failed code) r s.runs (final-held id w r f)
      i

-- A completed, skipped or failed run is never written again: whatever runs from a consistent table,
-- the row is still there as it was.
pub Reach-final :
    {max_attempts : ℕ} {s t : Db} (r : Run)
    → 0 < max_attempts
    → Reach max_attempts s t
    → IsConsistent max_attempts s
    → is_final r.status ≡ true
    → In r s.runs
    → In r t.runs
Reach-final r p here h f i = i
Reach-final r p (next q st) h f i = Step-final r st (Reach-runs p q h) f (Reach-final r p q h f i)
