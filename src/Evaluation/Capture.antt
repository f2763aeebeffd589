-- ===== src/Evaluation/Capture.antt =====
-- evaluation/repository.py and evaluation/reconciler.py: a turn is captured once.
use hommey.Evaluation.Metadata.{TurnEvaluationMetadata, ProducerVersions}
use hommey.Evaluation.Rows.{Db, Run, Subject, Message}
use hommey.Evaluation.Queue.{
  Evaluator, create_subject_and_run, insert_new, new_run, new_subject, of_request, of_subject,
  order_by,
}
use hommey.Evaluation.Leases.{insert_new-cases}
use hommey.Evaluation.Reconciler.{
  MissingTurn, reconcile_all, reconciled_metadata, asks, is_missing, joined, missing_turn,
  missing_turn_subjects, reconcile,
}
use hommey.Evaluation.Orders.{In-concat, length-order_by, order_by-In}
use hommey.Prelude.{
  All, All-In, Bool, Bool-cases, In, In-All, List, String, [], any, any-append, any-find_by,
  any-snoc, ap, arith, concat, eq_refl, false, find_by-append, find_by-holds, inl, inr, keep,
  keep-In, keep-none, length, map, max, min, none, refl, some, subst, sym, take, take-all, take-nil,
  true, ℕ, ◌∙◌, ◌∷◌, ◌≡◌, ◌≤◌,
}

insert_new-again :
    {A : Type 0} (p : A → Bool) (row row' : A) (rows : List A)
    → p row ≡ true
    → insert_new p row' (insert_new p row rows).1 ≡ insert_new p row rows
insert_new-again p row row' rows b = elim (insert_new-cases p row rows) [
  | inl o ↦ rw o.0 (rw (find_by-append p rows row o.1 b, insert_new) refl)
  | inr o ↦ rw o.1 (rw (o.2, insert_new) refl)
]

-- The two insertions, over what they insert and what they conflict with.
abbrev captured :
    (Subject → Bool)
    → Subject
    → (String → Run → Bool)
    → (String → Run)
    → Db
    → (String × String) × Db
captured p row q run db =
    let s = insert_new p row db.subjects in
    let t = insert_new (q s.0.subject_id) (run s.0.subject_id) db.runs in
    ((s.0.subject_id, t.0.evaluation_id), record db { subjects = s.1; runs = t.1 })

captured-again :
    (p : Subject → Bool) (row row' : Subject) (q : String → Run → Bool) (run run' : String → Run)
    (db : Db)
    → p row ≡ true
    → ((id : String) → q id (run id) ≡ true)
    → captured p row' q run' (captured p row q run db).1 ≡ captured p row q run db
captured-again p row row' q run run' db b c =
    let s = insert_new p row db.subjects in
    let t = insert_new (q s.0.subject_id) (run s.0.subject_id) db.runs in
    ap
      (λ (x : Subject × List Subject).
        let y = insert_new (q x.0.subject_id) (run' x.0.subject_id) t.1 in
        ((x.0.subject_id, y.0.evaluation_id), record db { subjects = x.1; runs = y.1 }))
      (insert_new-again p row row' db.subjects b)
    ∙ ap
        (λ (y : Run × List Run).
          ((s.0.subject_id, y.0.evaluation_id), record db { subjects = s.1; runs = y.1 }))
        (insert_new-again (q s.0.subject_id) (run s.0.subject_id) (run' s.0.subject_id) db.runs
          (c s.0.subject_id))

-- Capturing a turn again for the same evaluator, from whatever snapshot of it and at whatever time,
-- gives the two ids of the first capture and writes nothing.
pub create-again :
    (now now' : ℕ) (sid id hash sid' id' hash' : String) (m m' : TurnEvaluationMetadata)
    (e e' : Evaluator) (db : Db)
    → m'.subject.request_id ≡ m.subject.request_id
    → e'.evaluator_version ≡ e.evaluator_version
    → create_subject_and_run now' sid' id' hash' m' e'
        (create_subject_and_run now sid id hash m e db).1
      ≡ create_subject_and_run now sid id hash m e db
unfolding create_subject_and_run
create-again now now' sid id hash sid' id' hash' m m' e e' db r v =
    ap
      (λ (request_id : String).
        captured (of_request request_id) (new_subject sid' hash' m')
          (λ s. of_subject s e'.evaluator_version) (λ s. new_run now' id' s e')
          (create_subject_and_run now sid id hash m e db).1)
      r
    ∙ (ap
          (λ (version : String).
            captured (of_request m.subject.request_id) (new_subject sid' hash' m')
              (λ s. of_subject s version) (λ s. new_run now' id' s e')
              (create_subject_and_run now sid id hash m e db).1)
          v
        ∙ captured-again (of_request m.subject.request_id) (new_subject sid hash m)
            (new_subject sid' hash' m') (λ s. of_subject s e.evaluator_version)
            (λ s. new_run now id s e) (λ s. new_run now' id' s e') db (eq_refl m.subject.request_id)
            (λ s. ground (arith, eq_refl s, eq_refl e.evaluator_version)))

insert_new-any :
    {A : Type 0} (p q : A → Bool) (row : A) (rows : List A)
    → any q rows ≡ true
    → any q (insert_new p row rows).1 ≡ true
insert_new-any p q row rows h = elim (insert_new-cases p row rows) [
  | inl o ↦ rw o.0 (any-append q rows (row ∷ []) h)
  | inr o ↦ rw o.1 h
]

insert_new-present :
    {A : Type 0} (p : A → Bool) (row : A) (rows : List A)
    → p row ≡ true
    → any p (insert_new p row rows).1 ≡ true
insert_new-present p row rows b = elim (insert_new-cases p row rows) [
  | inl o ↦ rw o.0 (any-snoc p rows row b)
  | inr o ↦ rw o.1 (any-find_by p p rows o.0 o.2 (find_by-holds p rows o.0 o.2))
]

abbrev pub is_captured : String → Db → Bool
is_captured request_id db = any (of_request request_id) db.subjects

reconcile_all-keeps :
    (fresh : String → String × String × String) (versions : ProducerVersions) (now : ℕ)
    (e : Evaluator) (rows : List MissingTurn) (db : Db) (request_id : String)
    → is_captured request_id db ≡ true
    → is_captured request_id (reconcile_all fresh versions now e rows db) ≡ true
unfolding reconcile_all create_subject_and_run reconciled_metadata
reconcile_all-keeps fresh versions now e [] db c h = h
reconcile_all-keeps fresh versions now e (row ∷ rows) db c h =
    let ids = fresh row.request_id in
    reconcile_all-keeps fresh versions now e rows
      (create_subject_and_run now ids.0 ids.1 ids.2 (reconciled_metadata versions row) e db).1 c
      (insert_new-any (of_request row.request_id) (of_request c)
        (new_subject ids.0 ids.2 (reconciled_metadata versions row)) db.subjects h)

reconcile_all-captures :
    (fresh : String → String × String × String) (versions : ProducerVersions) (now : ℕ)
    (e : Evaluator) (rows : List MissingTurn) (db : Db)
    → All (λ r. is_captured r.request_id (reconcile_all fresh versions now e rows db) ≡ true) rows
unfolding reconcile_all create_subject_and_run reconciled_metadata
reconcile_all-captures fresh versions now e [] db = tt
reconcile_all-captures fresh versions now e (row ∷ rows) db =
    let ids = fresh row.request_id in
    let db' =
      (create_subject_and_run now ids.0 ids.1 ids.2 (reconciled_metadata versions row) e db).1 in
    (
      reconcile_all-keeps fresh versions now e rows db' row.request_id (
          insert_new-present (of_request row.request_id)
            (new_subject ids.0 ids.2 (reconciled_metadata versions row)) db.subjects
            (eq_refl row.request_id)),
      reconcile_all-captures fresh versions now e rows db',
    )

joined-request :
    (ms : List Message) (a : Message)
    → (r : MissingTurn) × In r (joined ms a) × (r.request_id ≡ a.request_id)
joined-request ms a = first (keep (asks a) ms)
  where
    first :
        (us : List Message)
        → (r : MissingTurn) × In r (elim us [
          | [] ↦ missing_turn a none ∷ []
          | u ∷ vs ↦ map (λ x. missing_turn a (some x.content)) (u ∷ vs)
        ])
          × (r.request_id ≡ a.request_id)
    first [] = (missing_turn a none, inl refl, refl)
    first (u ∷ us) = (missing_turn a (some u.content), inl refl, refl)

-- The turns that stand in a database without a subject.
abbrev pub missing_rows : Db → List MissingTurn
missing_rows db = concat (map (joined db.messages) (keep (is_missing db.subjects) db.messages))

reconcile_all-messages :
    (fresh : String → String × String × String) (versions : ProducerVersions) (now : ℕ)
    (e : Evaluator) (rows : List MissingTurn) (db : Db)
    → (reconcile_all fresh versions now e rows db).messages ≡ db.messages
unfolding reconcile_all create_subject_and_run
reconcile_all-messages fresh versions now e [] db = refl
reconcile_all-messages fresh versions now e (row ∷ rows) db =
    let ids = fresh row.request_id in
    reconcile_all-messages fresh versions now e rows
      (create_subject_and_run now ids.0 ids.1 ids.2 (reconciled_metadata versions row) e db).1

captured-missing :
    (db : Db) (a : Message) → is_captured a.request_id db ≡ true → is_missing db.subjects a ≡ false
captured-missing db a h = ground (arith, h)

module _ (fresh : String → String × String × String) (versions : ProducerVersions) (now : ℕ)
    (e : Evaluator) (limit : ℕ) (db : Db) (covers : length (missing_rows db) ≤ min limit 1000) where
  abbrev after : Db
  after = reconcile_all fresh versions now e (missing_turn_subjects limit db) db

  all_rows : missing_turn_subjects limit db ≡ order_by (λ r. r.occurred_at) (missing_rows db)
  unfolding missing_turn_subjects
  all_rows = take-all (max 1 (min limit 1000)) (order_by (λ r. r.occurred_at) (missing_rows db)) (
      omega (arith, length-order_by (λ (r : MissingTurn). r.occurred_at) (missing_rows db), covers))

  was_missing :
      (a : Message)
      → In a db.messages
      → is_missing db.subjects a ≡ true
      → is_captured a.request_id after ≡ true
  was_missing a i b =
      let (r, j, same) = joined-request db.messages a in
      let row : In r (missing_turn_subjects limit db) = subst (In r) (sym all_rows) (
        order_by-In (λ (x : MissingTurn). x.occurred_at) r (missing_rows db)
          (In-concat (joined db.messages) a r (keep (is_missing db.subjects) db.messages)
            (keep-In (is_missing db.subjects) a db.messages b i) j)) in
      subst (λ (c : String). is_captured c after ≡ true) same
        (In-All _ _ r
          (reconcile_all-captures fresh versions now e (missing_turn_subjects limit db) db) row)

  none_missing : (a : Message) → In a db.messages → is_missing after.subjects a ≡ false
  none_missing a i = elim (Bool-cases (is_missing db.subjects a)) [
    | inl b ↦ captured-missing after a (was_missing a i b)
    | inr b ↦ elim (Bool-cases (is_captured a.request_id db)) [
      | inl c ↦ captured-missing after a (
          reconcile_all-keeps fresh versions now e (missing_turn_subjects limit db) db a.request_id
            c)
      | inr c ↦ ground (arith, b, c)
    ]
  ]

  -- A reconciliation whose limit covers the missing turns leaves none missing: there is no answered
  -- message any more, of those that are not deleted, that has no subject.
  pub reconcile-none_missing :
      (limit' : ℕ) → missing_turn_subjects limit' (reconcile fresh versions now e limit db).1 ≡ []
  unfolding reconcile missing_turn_subjects order_by
  reconcile-none_missing limit' =
      let same : after.messages ≡ db.messages =
        reconcile_all-messages fresh versions now e (missing_turn_subjects limit db) db in
      let none_left : keep (is_missing after.subjects) db.messages ≡ [] =
        keep-none (is_missing after.subjects) db.messages (All-In _ db.messages none_missing) in
      let kept : keep (is_missing after.subjects) after.messages ≡ [] =
        ap (keep (is_missing after.subjects)) same ∙ none_left in
      ap
        (λ (ms : List Message).
          take (max 1 (min limit' 1000))
            (order_by (λ r. r.occurred_at) (concat (map (joined after.messages) ms))))
        kept
      ∙ take-nil (max 1 (min limit' 1000))
