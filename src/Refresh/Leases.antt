-- ===== src/Refresh/Leases.antt =====
-- The leases, attempts and keys of the rows of rag/refresh_jobs.py, method by method.
use hommey.Refresh.Tables.{
  In, Unique, Unique-Only, Unique-update_where, find_job-In, first_by-In, keep-In,
}
use hommey.Refresh.Rows.{Job, Repository, is_running, queued, running, Db, JobStatus, is_active}
use hommey.Refresh.Queue.{
  recovered, started, is_held, write_held, claim, is_due, is_lost, renew, update_progress,
  oldest_due,
}
use hommey.Refresh.Outcomes.{
  Report, completed, failed, report_status, complete, cut, fail, find_job,
}
use hommey.Prelude.{
  All, All-trivial, All-update_where, Bool, Option-cases, String, arith, count, count-update_where,
  eq_iff, false, inl, inr, keep, ltb, none, refl, true, update_where, ℕ, ◌&&◌, ◌<◌, ◌==◌, ◌≡◌, ◌≢◌,
  ◌≤◌, String_eq, ℕ_eq,
}

-- A job has an attempt left while it is queued, a lease exactly while it runs, and never more
-- attempts than it may have.
pub record IsLeased (j : Job) : Type 0 where
  pub capped : j.attempt ≤ j.max_attempts
  pub left : j.status ≡ queued → j.attempt < j.max_attempts
  pub held : j.status ≡ running → (j.lease_owner ≢ none) × (j.lease_expires_at ≢ none)
  pub free : is_running j.status ≡ false → (j.lease_owner ≡ none) × (j.lease_expires_at ≡ none)
  pub shown : j.progress ≤ 100

recovered-IsLeased : (now : ℕ) (j : Job) → IsLeased j → IsLeased (recovered now j)
recovered-IsLeased now j h = ground arith

started-IsLeased :
    (now : ℕ) (r : Repository) (w : String) (j : Job)
    → j.status ≡ queued
    → IsLeased j
    → IsLeased (started now r w j)
started-IsLeased now r w j q h = ground arith

completed-IsLeased :
    (now : ℕ) (report : Report) (m : String) (j : Job)
    → IsLeased j
    → IsLeased (completed now report m j)
unfolding report_status
completed-IsLeased now report m j h = ground arith

failed-IsLeased :
    (now : ℕ) (r : Repository) (retry : Bool) (text : String) (j : Job)
    → (retry ≡ true → j.attempt < j.max_attempts)
    → IsLeased j
    → IsLeased (failed now r retry text j)
failed-IsLeased now r retry text j k h = ground arith

-- What the queue of a collection keeps: `job_id` is a key, every row is leased as its status says,
-- and at most one job of each collection waits or runs.
pub record IsConsistent (db : Db) : Type 0 where
  pub unique : Unique db.jobs
  pub leased : All IsLeased db.jobs
  pub single : (c : String) → count (λ j. j.collection_name == c && is_active j.status) db.jobs ≤ 1

-- A statement that rewrites rows, keeps their keys and collections, and makes no ended job active.
update-IsConsistent {ℓ} :
    {Q : Job → Type ℓ} (p : Job → Bool) (f : Job → Job) (db : Db)
    → ((j : Job) → (f j).job_id ≡ j.job_id)
    → ((j : Job) → (f j).collection_name ≡ j.collection_name)
    → ((j : Job) → p j ≡ true → Q j → is_active j.status ≡ true)
    → ((j : Job) → p j ≡ true → Q j → IsLeased j → IsLeased (f j))
    → All Q db.jobs
    → IsConsistent db
    → IsConsistent (record db { jobs = update_where p f db.jobs })
update-IsConsistent p f db kid kc ka kl q h = record {
  unique = Unique-update_where p f db.jobs kid h.unique;
  leased = All-update_where p f db.jobs kl q h.leased;
  single = λ c. omega (
    arith,
    h.single c,
    count-update_where (λ j. j.collection_name == c && is_active j.status) p f db.jobs
        (λ j b x t. ground (arith, kc j, ka j b x, t)) q,
  );
}

running_active : (s : JobStatus) → is_running s ≡ true → is_active s ≡ true
running_active s h = ground arith

write_held-IsConsistent :
    (id w : String) (f : Job → Job) (db : Db)
    → ((j : Job) → (f j).job_id ≡ j.job_id)
    → ((j : Job) → (f j).collection_name ≡ j.collection_name)
    → ((j : Job) → is_running j.status ≡ true → IsLeased j → IsLeased (f j))
    → IsConsistent db
    → IsConsistent (write_held id w f db).1
write_held-IsConsistent id w f db kid kc kl h =
    update-IsConsistent (is_held id w) f db kid kc (λ j b _. ground (arith, b))
      (λ j b _. kl j (ground (arith, b))) (All-trivial db.jobs) h

pub recovered_all-IsConsistent :
    (now : ℕ) (r : Repository) (db : Db)
    → IsConsistent db
    → IsConsistent (record db { jobs = update_where (is_lost now r) (recovered now) db.jobs })
recovered_all-IsConsistent now r db h =
    update-IsConsistent (is_lost now r) (recovered now) db (λ j. refl) (λ j. refl)
      (λ j b _. ground (arith, b)) (λ j b _. recovered-IsLeased now j) (All-trivial db.jobs) h

start-IsConsistent :
    (now : ℕ) (r : Repository) (w : String) (c : Job) (db : Db)
    → In c (keep (is_due now r) db.jobs)
    → IsConsistent db
    → IsConsistent
        (record db { jobs = update_where (λ j. j.job_id == c.job_id) (started now r w) db.jobs })
start-IsConsistent now r w c db m h =
    let (i, due) = keep-In (is_due now r) db.jobs c m in
    let waits : c.status ≡ queued = ground (arith, due) in
    update-IsConsistent (λ j. j.job_id == c.job_id) (started now r w) db (λ j. refl) (λ j. refl)
      (λ j b o. ground (arith, o b, waits))
      (λ j b o. started-IsLeased now r w j (ground (arith, o b, waits)))
      (Unique-Only c db.jobs h.unique i) h

pub claim-IsConsistent :
    (now : ℕ) (r : Repository) (w : String) (db : Db)
    → IsConsistent db
    → IsConsistent (claim now r w db).1
unfolding claim
claim-IsConsistent now r w db h =
    let db' : Db = record db { jobs = update_where (is_lost now r) (recovered now) db.jobs } in
    elim (Option-cases (oldest_due now r db'.jobs)) [
      | inl e ↦ rw (e, claim) (recovered_all-IsConsistent now r db h)
      | inr (c, e) ↦
          rw (e, claim)
            (start-IsConsistent now r w c db' (first_by-In _ _ c e)
              (recovered_all-IsConsistent now r db h))
    ]

pub fail-IsConsistent :
    (now : ℕ) (r : Repository) (id w text : String) (retryable : Bool) (db : Db)
    → IsConsistent db
    → IsConsistent (fail now r id w text retryable db).1
unfolding fail
fail-IsConsistent now r id w text retryable db h = elim (Option-cases (find_job id db.jobs)) [
  | inl e ↦ rw (e, fail) h
  | inr (c, e) ↦
      let (i, k) = find_job-In id db.jobs c e in
      rw (e, fail)
        (update-IsConsistent (is_held id w)
          (failed now r (retryable && ltb c.attempt c.max_attempts) (cut 4000 text)) db (λ j. refl)
          (λ j. refl) (λ j b _. ground (arith, b))
          (λ j b o.
            failed-IsLeased now r (retryable && ltb c.attempt c.max_attempts) (cut 4000 text) j
              (λ t. ground (arith, b, o, t, k, eq_iff j.job_id id)))
          (Unique-Only c db.jobs h.unique i) h)
]

pub write-IsConsistent :
    (now : ℕ) (r : Repository) (id w stage m : String) (n : ℕ) (report : Report) (db : Db)
    → IsConsistent db
    → IsConsistent (renew now r id w db).1
      × IsConsistent (update_progress now id w stage n db).1
      × IsConsistent (complete now id w report m db).1
unfolding renew update_progress complete
write-IsConsistent now r id w stage m n report db h = (
  write_held-IsConsistent id w _ db (λ j. refl) (λ j. refl) (λ j b k. ground (arith, b)) h,
  write_held-IsConsistent id w _ db (λ j. refl) (λ j. refl) (λ j b k. ground (arith, b)) h,
  write_held-IsConsistent id w (completed now report m) db (λ j. refl) (λ j. refl)
      (λ j b k. completed-IsLeased now report m j k) h,
)
