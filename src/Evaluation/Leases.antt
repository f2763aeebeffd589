-- ===== src/Evaluation/Leases.antt =====
-- The leases of evaluation/repository.py, over any run of its statements.
use hommey.Evaluation.Rows.{Db, Run, is_final, is_pending, is_running}
use hommey.Evaluation.Orders.{In-order_by}
use hommey.Evaluation.Queue.{
  claimed_ids, order_by, with_runs, Evaluator, claim_pending, create_subject_and_run, insert_new,
  is_held, is_lost, new_run, new_subject, of_request, of_subject, recover_expired_leases, recovered,
  started, write_held,
}
use hommey.Evaluation.Metadata.{TurnEvaluationMetadata}
use hommey.Prelude.{
  All, All-In, All-append, All-trivial, All-update_where, Bool, In, In-keep, In-take, In-unique,
  List, Option-cases, String, [], ap, arith, count, count-append, count-update_where, elem,
  elem-map, eq_iff, eq_refl, find_by, if◌then◌else◌, inl, inr, is_some, keep, max, none, refl, some,
  subst, sym, take, true, update_where, ℕ, ◌++◌, ◌+◌, ◌<◌, ◌==◌, ◌∷◌, ◌≡◌, ◌≤◌, ◌⊎◌, String_eq,
  ℕ_eq,
}

pub record IsSound (max_attempts : ℕ) (r : Run) : Type 0 where
  pub within : r.attempts + (if is_pending r.status then 1 else 0) ≤ max_attempts
  pub owned : is_some r.lease_owner ≡ is_running r.status
  pub leased : is_some r.lease_expires_at ≡ is_running r.status
  pub closed : is_some r.completed_at ≡ is_final r.status

abbrev pub has_id : String → Run → Bool
has_id id r = r.evaluation_id == id

pub record IsConsistent (max_attempts : ℕ) (db : Db) : Type 0 where
  pub sound : All (IsSound max_attempts) db.runs
  pub unique : (id : String) → count (has_id id) db.runs ≤ 1

-- A claimed row was pending.
pub claimed-pending :
    (max_attempts : ℕ) (db : Db) (batch_size : ℕ) (r : Run)
    → IsConsistent max_attempts db
    → In r db.runs
    → elem r.evaluation_id (claimed_ids batch_size db.runs) ≡ true
    → is_pending r.status ≡ true
unfolding claimed_ids
claimed-pending max_attempts db n r h i e =
    let (x, j, k) =
      elem-map (λ (y : Run). y.evaluation_id) r.evaluation_id
        (take (max 1 n) (order_by (λ y. y.created_at) (keep (λ y. is_pending y.status) db.runs)))
        e in
    let p =
      In-keep (λ (y : Run). is_pending y.status) x db.runs
        (In-order_by (λ y. y.created_at) x _ (In-take (max 1 n) x _ j)) in
    let same : x ≡ r =
      In-unique (has_id r.evaluation_id) x r db.runs (h.unique r.evaluation_id)
        ((eq_iff x.evaluation_id r.evaluation_id).1 k) (eq_refl r.evaluation_id) p.0 i in
    subst (λ (y : Run). is_pending y.status ≡ true) same p.1

-- A statement that keeps ids and makes sound rows of those it picks keeps the table consistent.
update-IsConsistent :
    (max_attempts : ℕ) (p : Run → Bool) (f : Run → Run) (db : Db)
    → ((r : Run) → (f r).evaluation_id ≡ r.evaluation_id)
    → ((r : Run) → In r db.runs → p r ≡ true → IsSound max_attempts r → IsSound max_attempts (f r))
    → IsConsistent max_attempts db
    → IsConsistent max_attempts (with_runs db (update_where p f db.runs))
update-IsConsistent m p f db ids k h = record {
  sound =
      All-update_where {Q = λ (r : Run). p r ≡ true → IsSound m r → IsSound m (f r)} p f db.runs
        (λ r b q s. q b s) (All-In _ db.runs k) h.sound;
  unique = λ id. omega (
    arith,
    h.unique id,
    count-update_where (has_id id) p f db.runs
        (λ r b q t. subst (λ (s : String). (s == id) ≡ true) (ids r) t) (All-trivial db.runs),
  );
}

pub claim-IsConsistent :
    (max_attempts now : ℕ) (w : String) (n lease : ℕ) (db : Db)
    → IsConsistent max_attempts db
    → IsConsistent max_attempts (claim_pending now w n lease db).1
unfolding claim_pending
claim-IsConsistent m now w n lease db h =
    update-IsConsistent m (λ r. elem r.evaluation_id (claimed_ids n db.runs)) (started now w lease)
      db (λ r. refl)
      (λ r i e s. let p = claimed-pending m db n r h i e in ground (arith, p, s.closed, s.within)) h

pub recover-IsConsistent :
    (max_attempts now : ℕ) (db : Db)
    → IsConsistent max_attempts db
    → IsConsistent max_attempts (recover_expired_leases now max_attempts db).1
unfolding recover_expired_leases
recover-IsConsistent m now db h =
    update-IsConsistent m (is_lost now) (recovered now m) db (λ r. refl)
      (λ r i e s. ground (arith, s, e)) h

pub write-IsConsistent :
    (max_attempts : ℕ) (id w : String) (f : Run → Run) (db : Db)
    → ((r : Run) → (f r).evaluation_id ≡ r.evaluation_id)
    → ((r : Run) → IsSound max_attempts r → IsSound max_attempts (f r))
    → IsConsistent max_attempts db
    → IsConsistent max_attempts (write_held id w f db).1
unfolding write_held
write-IsConsistent m id w f db ids k h =
    update-IsConsistent m (is_held id w) f db ids (λ r i e s. k r s) h

pub insert_new-cases :
    {A : Type 0} (conflicts : A → Bool) (row : A) (rows : List A)
    → ((insert_new conflicts row rows ≡ (row, rows ++ row ∷ [])) × (find_by conflicts rows ≡ none))
      ⊎ ((old : A) × (insert_new conflicts row rows ≡ (old, rows))
          × (find_by conflicts rows ≡ some old))
insert_new-cases conflicts row rows = elim (Option-cases (find_by conflicts rows)) [
  | inl b ↦ inl (rw (b, insert_new) refl, b)
  | inr o ↦ inr (o.0, rw (o.1, insert_new) refl, o.1)
]

pub create-IsConsistent :
    (max_attempts now : ℕ) (sid id hash : String) (m : TurnEvaluationMetadata) (e : Evaluator)
    (db : Db)
    → 0 < max_attempts
    → count (has_id id) db.runs ≡ 0
    → IsConsistent max_attempts db
    → IsConsistent max_attempts (create_subject_and_run now sid id hash m e db).1
unfolding create_subject_and_run
create-IsConsistent max_attempts now sid id hash m e db pos fresh h =
    let s = (insert_new (of_request m.subject.request_id) (new_subject sid hash m) db.subjects).0 in
    let row = new_run now id s.subject_id e in
    elim (insert_new-cases (of_subject s.subject_id e.evaluator_version) row db.runs) [
      | inl o ↦
          let runs : (create_subject_and_run now sid id hash m e db).1.runs ≡ db.runs ++ row ∷ [] =
            ap (λ x. x.1) o.0 in
          record {
            sound =
                subst (All (IsSound max_attempts)) (sym runs)
                  (All-append (IsSound max_attempts) db.runs row h.sound (ground (arith, pos)));
            unique = λ c. ground (
              arith,
              ap (count (has_id c)) runs,
              count-append (has_id c) db.runs row,
              h.unique c,
              fresh,
              eq_iff id c,
            );
          }
      | inr o ↦
          let runs : (create_subject_and_run now sid id hash m e db).1.runs ≡ db.runs =
            ap (λ x. x.1) o.1 in
          record {
            sound = subst (All (IsSound max_attempts)) (sym runs) h.sound;
            unique = λ c. omega (arith, ap (count (has_id c)) runs, h.unique c);
          }
    ]
