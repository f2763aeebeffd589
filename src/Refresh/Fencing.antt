-- ===== src/Refresh/Fencing.antt =====
-- Leases of rag/refresh_jobs.py: who may still write a job, and which jobs a claim may take.
use hommey.Refresh.Tables.{In, first_by-In, keep-In, All-In, Only, Unique-Only}
use hommey.Refresh.Leases.{IsConsistent, IsLeased, recovered_all-IsConsistent}
use hommey.Refresh.Rows.{Db, Job, Repository, is_running, running}
use hommey.Refresh.Queue.{
  claim, is_held, renew, started, update_progress, write_held, is_due, is_expired, is_lost,
  oldest_due, recovered,
}
use hommey.Refresh.Outcomes.{Report, complete, fail, cut, failed, find_job}
use hommey.Prelude.{
  Bool, Bool-cases, List, Option-cases, String, [], any, ap, arith, eq_refl, false, inl, inr, ltb,
  refl, some, subst, sym, true, update_where, ℕ, ◌&&◌, ◌+◌, ◌==◌, ◌∷◌, ◌≡◌, ◌≤◌, String_eq, ℕ_eq,
}

update_where-none :
    (p : Job → Bool) (f : Job → Job) (js : List Job) → any p js ≡ false → update_where p f js ≡ js
update_where-none p f [] h = refl
update_where-none p f (j ∷ js) h = ground (arith, update_where-none p f js)

not_held-write :
    (id w : String) (f : Job → Job) (db : Db)
    → any (is_held id w) db.jobs ≡ false
    → write_held id w f db ≡ (false, db)
not_held-write id w f db h = ground (arith, h, update_where-none (is_held id w) f db.jobs h)

started_by :
    (now : ℕ) (r : Repository) (id w w' : String) (js : List Job)
    → (w' == w) ≡ false
    → any (is_held id w) (update_where (λ j. j.job_id == id) (started now r w') js) ≡ false
started_by now r id w w' [] n = refl
started_by now r id w w' (j ∷ js) n = ground (arith, n, started_by now r id w w' js n)

claim-not_held :
    (now : ℕ) (r : Repository) (w w' : String) (db : Db) (j : Job)
    → (w' == w) ≡ false
    → (claim now r w' db).0 ≡ some j
    → any (is_held j.job_id w) (claim now r w' db).1.jobs ≡ false
unfolding claim
claim-not_held now r w w' db j n e =
    let js = update_where (is_lost now r) (recovered now) db.jobs in
    elim (Option-cases (oldest_due now r js)) [
      | inl a ↦ ground (arith, a, e)
      | inr (c, a) ↦
          let k : started now r w' c ≡ j = ground (arith, a, e) in
          rw (a, claim, ← k) (started_by now r c.job_id w w' js n)
    ]

fail-not_held :
    (now : ℕ) (r : Repository) (id w text : String) (b : Bool) (db : Db)
    → any (is_held id w) db.jobs ≡ false
    → fail now r id w text b db ≡ (false, db)
unfolding fail
fail-not_held now r id w text b db h = elim (Option-cases (find_job id db.jobs)) [
  | inl a ↦ rw (a, fail)
  | inr (c, a) ↦
      rw (a, fail) (not_held-write id w (failed now r (retryable c) (cut 4000 text)) db h)
]
  where
    retryable : Job → Bool
    retryable c = b && ltb c.attempt c.max_attempts

-- Once `w'` has claimed a job, whoever else held it is fenced out: for any other worker `w`,
-- renewing, reporting progress, completing and failing that job return false and write nothing.
pub claim_fences :
    (now later : ℕ) (r : Repository) (w w' stage text m : String) (n : ℕ) (b : Bool)
    (report : Report) (db : Db) (j : Job)
    → (w' == w) ≡ false
    → (claim now r w' db).0 ≡ some j
    → let db' = (claim now r w' db).1 in
      (renew later r j.job_id w db' ≡ (false, db'))
      × (update_progress later j.job_id w stage n db' ≡ (false, db'))
      × (complete later j.job_id w report m db' ≡ (false, db'))
      × (fail later r j.job_id w text b db' ≡ (false, db'))
unfolding renew update_progress complete fail
claim_fences now later r w w' stage text m n b report db j ne e =
    let h = claim-not_held now r w w' db j ne e in
    let db' = (claim now r w' db).1 in
    (
      not_held-write j.job_id w _ db' h,
      not_held-write j.job_id w _ db' h,
      not_held-write j.job_id w _ db' h,
      fail-not_held later r j.job_id w text b db' h,
    )

In-update_where :
    (p : Job → Bool) (f : Job → Job) (js : List Job) (j : Job)
    → p j ≡ false
    → In j js
    → In j (update_where p f js)
In-update_where p f [] j n m = absurd m
In-update_where p f (k ∷ js) j n m = elim m [
  | inl e ↦ inl (let q : p k ≡ false = subst (λ x. p x ≡ false) (sym e) n in rw q e)
  | inr t ↦ inr (In-update_where p f js j n t)
]

In-update_where_picked :
    (p : Job → Bool) (f : Job → Job) (js : List Job) (j : Job)
    → p j ≡ true
    → In j js
    → In (f j) (update_where p f js)
In-update_where_picked p f [] j n m = absurd m
In-update_where_picked p f (k ∷ js) j n m = elim m [
  | inl e ↦ inl (let q : p k ≡ true = subst (λ x. p x ≡ true) (sym e) n in rw q (ap f e))
  | inr t ↦ inr (In-update_where_picked p f js j n t)
]

-- A claim from a consistent queue leaves every job that runs under a lease which has not expired
-- exactly as it is. The job that it returns stands in the queue as returned: running, owned by the
-- claiming worker until `lease_seconds` from now, within its `max_attempts`.
pub claim_keeps_live :
    (now : ℕ) (r : Repository) (w : String) (db : Db)
    → IsConsistent db
    → ((j : Job)
        → In j db.jobs
        → is_running j.status ≡ true
        → is_expired now j.lease_expires_at ≡ false
        → In j (claim now r w db).1.jobs)
      × ((j : Job)
          → (claim now r w db).0 ≡ some j
          → In j (claim now r w db).1.jobs
            × (j.status ≡ running)
            × (j.lease_owner ≡ some w)
            × (j.lease_expires_at ≡ some (now + r.lease_seconds))
            × (j.attempt ≤ j.max_attempts))
unfolding claim
claim_keeps_live now r w db h =
    let js = update_where (is_lost now r) (recovered now) db.jobs in
    let kept = recovered_all-IsConsistent now r db h in
    elim (Option-cases (oldest_due now r js)) [
      | inl a ↦ (
        λ j m s l.
            rw (a, claim)
              (In-update_where (is_lost now r) (recovered now) db.jobs j (ground (arith, s, l)) m),
        λ j e. ground (arith, a, e),
      )
      | inr (c, a) ↦
          let (i, due) = keep-In (is_due now r) js c (first_by-In _ _ c a) in
          (
            λ j m s l.
                let m' =
                  In-update_where (is_lost now r) (recovered now) db.jobs j (ground (arith, s, l))
                    m in
                let o = All-In (Only c) js j (Unique-Only c js kept.unique i) m' in
                rw (a, claim)
                  (In-update_where (λ k. k.job_id == c.job_id) (started now r w) js j
                    (elim (Bool-cases (j.job_id == c.job_id)) [
                      | inl b ↦ ground (arith, o b, s, due)
                      | inr b ↦ b
                    ])
                    m'),
            λ j e.
                let k : started now r w c ≡ j = ground (arith, a, e) in
                let m =
                  In-update_where_picked (λ k. k.job_id == c.job_id) (started now r w) js c
                    (eq_refl c.job_id) i in
                let l = All-In IsLeased js c kept.leased i in
                (
                  rw (a, claim)
                      (subst
                        (λ x. In x (update_where (λ k. k.job_id == c.job_id) (started now r w) js))
                        k m),
                  ground (arith, k),
                  ground (arith, k),
                  ground (arith, k),
                  ground (arith, k, l, due),
                ),
          )
    ]
