-- ===== src/Refresh/Tests.antt =====
-- A small life of the refresh queue of rag/refresh_jobs.py.
use hommey.Refresh.Rows.{Db, Job, Repository}
use hommey.Refresh.Queue.{claim, enqueue, new_job, recovered, renew, started, update_progress}
use hommey.Refresh.Outcomes.{complete, fail}
use hommey.Refresh.Leases.{IsConsistent}
use hommey.Refresh.Reach.{Reach-IsConsistent, claims, enqueues, here, next}
use hommey.Refresh.Fencing.{claim_fences}
use hommey.Prelude.{[], arith, false, insert, lookup, none, refl, some, true, ◌∷◌, ◌≡◌}

abbrev repo : Repository
repo = record {
  collection_name = "cqu";
  lease_seconds = 90;
  max_attempts = 3;
  retry_delay_seconds = 5;
}

abbrev empty : Db
empty = record { jobs = []; generations = []; heartbeats = [] }

abbrev queued_job : Job
queued_job = new_job 100 repo "j1" "admin" 0 "[]"

abbrev one_queued : Db
one_queued = record { jobs = queued_job ∷ []; generations = ("cqu", 0) ∷ []; heartbeats = [] }

abbrev one_running : Db
one_running = record one_queued { jobs = started 110 repo "w1" queued_job ∷ [] }

enqueues_one : (enqueue 100 repo "j1" "admin" (some "[]") empty).1 ≡ one_queued
unfolding enqueue lookup insert
enqueues_one = refl

claims_one : claim 110 repo "w1" one_queued ≡ (some (started 110 repo "w1" queued_job), one_running)
unfolding claim
claims_one = refl

-- The lease of `w1` ran out at 200, and `w2` takes the job over.
takes_over :
    (claim 201 repo "w2" one_running).0
    ≡ some (started 201 repo "w2" (recovered 201 (started 110 repo "w1" queued_job)))
unfolding claim
takes_over = refl

empty-IsConsistent : IsConsistent empty
empty-IsConsistent = record { unique = tt; leased = tt; single = λ c. omega arith }

Reach-IsConsistent_example :
    IsConsistent (claim 110 repo "w1" (enqueue 100 repo "j1" "admin" (some "[]") empty).1).1
Reach-IsConsistent_example =
    Reach-IsConsistent
      (next (next here (enqueues 100 repo "j1" "admin" (some "[]") (omega arith) tt))
        (claims 110 repo "w1"))
      empty-IsConsistent

one_running-IsConsistent : IsConsistent one_running
unfolding claim enqueue lookup insert
one_running-IsConsistent =
    Reach-IsConsistent
      (next (next here (enqueues 100 repo "j1" "admin" (some "[]") (omega arith) tt))
        (claims 110 repo "w1"))
      empty-IsConsistent

claim_fences_example :
    let db' = (claim 201 repo "w2" one_running).1 in
    (renew 210 repo "j1" "w1" db' ≡ (false, db'))
    × (update_progress 210 "j1" "w1" "s" 50 db' ≡ (false, db'))
    × (complete 210 "j1" "w1"
          (record { status = some "success"; message = none; json = "{}" })
          "{}"
          db'
        ≡ (false, db'))
    × (fail 210 repo "j1" "w1" "e" true db' ≡ (false, db'))
unfolding claim
claim_fences_example =
    claim_fences 201 210 repo "w1" "w2" "s" "e" "{}" 50 true
      (record { status = some "success"; message = none; json = "{}" }) one_running
      (started 201 repo "w2" (recovered 201 (started 110 repo "w1" queued_job))) refl takes_over
