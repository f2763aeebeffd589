-- ===== src/Refresh/Reach.antt =====
-- The refresh queue of rag/refresh_jobs.py over any run of its methods.
use hommey.Refresh.Tables.{Unique}
use hommey.Refresh.Rows.{Db, Job, Repository, is_active, repository}
use hommey.Refresh.Queue.{
  claim, enqueue, has_active, new_job, renew, run_source_change, update_progress,
}
use hommey.Refresh.Outcomes.{Report, complete, fail, heartbeat}
use hommey.Refresh.Leases.{
  IsConsistent, IsLeased, claim-IsConsistent, fail-IsConsistent, write-IsConsistent,
}
use hommey.Prelude.{
  All, Bool, Bool-cases, List, Option, String, [], arith, count-any, count-append, eq_iff, false,
  inl, inr, lookup, none, or_else, some, ℕ, ◌&&◌, ◌++◌, ◌<◌, ◌==◌, ◌∷◌, ◌≡◌, String_eq, ℕ_eq,
}

Unique-append :
    (js : List Job) (j : Job)
    → All (λ k. (j.job_id == k.job_id) ≡ false) js
    → Unique js
    → Unique (js ++ j ∷ [])
Unique-append [] j a u = (tt, tt)
Unique-append (k ∷ js) j a u = (absent js u.0, Unique-append js j a.1 u.1)
  where
    absent :
        (is : List Job)
        → All (λ i. (i.job_id == k.job_id) ≡ false) is
        → All (λ i. (i.job_id == k.job_id) ≡ false) (is ++ j ∷ [])
    absent [] h = (a.0, tt)
    absent (i ∷ is) h = (h.0, absent is h.1)

All-snoc : (js : List Job) (j : Job) → All IsLeased js → IsLeased j → All IsLeased (js ++ j ∷ [])
All-snoc [] j a p = (p, tt)
All-snoc (k ∷ js) j a p = (a.0, All-snoc js j a.1 p)

pub enqueue-IsConsistent :
    (now : ℕ) (r : Repository) (id by : String) (manifest : Option String) (db : Db)
    → 0 < r.max_attempts
    → All (λ k. (id == k.job_id) ≡ false) db.jobs
    → IsConsistent db
    → IsConsistent (enqueue now r id by manifest db).1
unfolding enqueue
enqueue-IsConsistent now r id by none db m u h =
    elim (Bool-cases (has_active r.collection_name db.jobs)) [
      | inl b ↦ rw (b, enqueue) h
      | inr b ↦ rw (b, enqueue) h
    ]
enqueue-IsConsistent now r id by (some text) db m u h =
    elim (Bool-cases (has_active r.collection_name db.jobs)) [
      | inl b ↦ rw (b, enqueue) h
      | inr b ↦
          let job =
            new_job now r id by (or_else (lookup r.collection_name db.generations) 0) text in
          rw (b, enqueue)
            (record {
              unique = Unique-append db.jobs job u h.unique;
              leased = All-snoc db.jobs job h.leased (ground arith);
              single = λ c. ground (
                arith,
                h.single c,
                eq_iff r.collection_name c,
                count-append (λ j. j.collection_name == c && is_active j.status) db.jobs job,
                count-any (λ j. j.collection_name == c && is_active j.status) db.jobs,
                b,
              );
            })
    ]

-- One transaction of some process, at some time. A new job has a fresh UUID.
pub data Step (db : Db) : Db → Type 0 where
  enqueues :
      (now : ℕ) (r : Repository) (id by : String) (manifest : Option String)
      → 0 < r.max_attempts
      → All (λ k. (id == k.job_id) ≡ false) db.jobs
      → Step db (enqueue now r id by manifest db).1
  claims : (now : ℕ) (r : Repository) (w : String) → Step db (claim now r w db).1
  renews : (now : ℕ) (r : Repository) (id w : String) → Step db (renew now r id w db).1
  progresses :
      (now : ℕ) (id w stage : String) (n : ℕ) → Step db (update_progress now id w stage n db).1
  completes :
      (now : ℕ) (id w : String) (report : Report) (m : String)
      → Step db (complete now id w report m db).1
  fails :
      (now : ℕ) (r : Repository) (id w text : String) (retryable : Bool)
      → Step db (fail now r id w text retryable db).1
  beats : (now : ℕ) (r : Repository) (w metadata : String) → Step db (heartbeat now r w metadata db)
  publishes : (r : Repository) (files : Option String) → Step db (run_source_change r files db).1

pub data Reach (s : Db) : Db → Type 0 where
  here : Reach s s
  next : {t u : Db} → Reach s t → Step t u → Reach s u

Step-IsConsistent : {s t : Db} → Step s t → IsConsistent s → IsConsistent t
unfolding heartbeat run_source_change
Step-IsConsistent {s} (enqueues now r id by m p u) h = enqueue-IsConsistent now r id by m s p u h
Step-IsConsistent {s} (claims now r w) h = claim-IsConsistent now r w s h
Step-IsConsistent {s} (renews now r id w) h =
    (write-IsConsistent now r id w "" "" 0 (record { status = none; message = none; json = "" }) s
      h).0
Step-IsConsistent {s} (progresses now id w stage n) h =
    (write-IsConsistent now (repository "" 0 0 0) id w stage "" n
      (record { status = none; message = none; json = "" }) s h).1
Step-IsConsistent {s} (completes now id w report m) h =
    (write-IsConsistent now (repository "" 0 0 0) id w "" m 0 report s h).2
Step-IsConsistent {s} (fails now r id w text b) h = fail-IsConsistent now r id w text b s h
Step-IsConsistent (beats now r w m) h = record {
  unique = h.unique;
  leased = h.leased;
  single = h.single;
}
Step-IsConsistent (publishes r none) h = h
Step-IsConsistent (publishes r (some f)) h = record {
  unique = h.unique;
  leased = h.leased;
  single = h.single;
}

-- Whatever enqueues, claims, renewals, progress reports, completions, failures, heartbeats and
-- source changes run from a consistent queue, in any order and at any times, by any workers: job
-- ids stay distinct, no job passes its `max_attempts` and a queued one has an attempt left, a job
-- has an owner and a lease exactly while it runs, and a collection has at most one active job.
pub Reach-IsConsistent : {s t : Db} → Reach s t → IsConsistent s → IsConsistent t
Reach-IsConsistent here h = h
Reach-IsConsistent (next r st) h = Step-IsConsistent st (Reach-IsConsistent r h)
