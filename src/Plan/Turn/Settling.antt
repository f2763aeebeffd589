-- ===== src/Plan/Turn/Settling.antt =====
-- `settle` of agent_runtime/execution_plan.py against a description without the loop.
use hommey.Plan.{
  Step, find, update, State, Status, allowed, check_result, enter, invalid_step_transition,
  is_active, pending, running, same, transition, wants_result, Outcome,
}
use hommey.Plan.Turn.{mark, settle_item, settle_items, final_outcome, settle, settle_target}
use hommey.Prelude.{
  Bool, Bool-cases, Dict, Option, String, [], any, ap, arith, eq_refl, err, false, if◌then◌else◌,
  inl, inr, lookup, map, none, not, ok, refl, some, sym, ◌&&◌, ◌++◌, ◌==◌, ◌∙◌, ◌∷◌, ◌≡◌, String_eq,
  ℕ_eq,
}

-- A prefix of the ledger that holds neither the key nor the result id.
abbrev pub Fresh : String → String → Dict Step → Type 0
Fresh key id [] = Unit
Fresh key id ((k, v) ∷ d) = ((k == key) ≡ false) × ((v.result_id == id) ≡ false) × Fresh key id d

-- The keys and the result ids of `d` are distinct, and differ from those of `before`.
abbrev pub Distinct : Dict Step → Dict Step → Type 0
Distinct before [] = Unit
Distinct before ((k, v) ∷ d) = Fresh k v.result_id before × Distinct (before ++ (k, v) ∷ []) d

lookup-Fresh :
    (key : String) (v : Step) (xs ys : Dict Step)
    → Fresh key v.result_id xs
    → lookup key (xs ++ (key, v) ∷ ys) ≡ some v
unfolding lookup
lookup-Fresh key v [] ys h = rw (eq_refl key)
lookup-Fresh key v ((k, w) ∷ xs) ys h = rw h.0 (lookup-Fresh key v xs ys h.2)

find-Fresh :
    (key id : String) (v : Step) (xs ys : Dict Step)
    → v.result_id ≡ id
    → Fresh key id xs
    → find id (xs ++ (key, v) ∷ ys) ≡ some v
unfolding find
find-Fresh key id v [] ys e h = rw (e, eq_refl id)
find-Fresh key id v ((k, w) ∷ xs) ys e h = rw h.1 (find-Fresh key id v xs ys e h.2)

update-Fresh :
    (key id : String) (f : Step → Step) (v : Step) (xs ys : Dict Step)
    → v.result_id ≡ id
    → Fresh key id xs
    → update id f (xs ++ (key, v) ∷ ys) ≡ xs ++ (key, f v) ∷ ys
unfolding update
update-Fresh key id f v [] ys e h = rw (e, eq_refl id)
update-Fresh key id f v ((k, w) ∷ xs) ys e h = rw h.1 (rw (update-Fresh key id f v xs ys e h.2))

mark-Fresh :
    (key id : String) (r : Option String) (v : Step) (xs ys : Dict Step)
    → Fresh key id xs
    → mark key r (xs ++ (key, v) ∷ ys) ≡ xs ++ (key, record v { error_code = r }) ∷ ys
unfolding mark
mark-Fresh key id r v [] ys h = rw (eq_refl key)
mark-Fresh key id r v ((k, w) ∷ xs) ys h = rw h.0 (rw (mark-Fresh key id r v xs ys h.2))

-- What settling does to one step, and whether it may.
abbrev pub settled : String → Status → Option String → Step → Step
settled now target reason v =
    if is_active v.status then record (enter now target none v) { error_code = reason } else v

abbrev pub is_blocked : Status → Step → Bool
is_blocked target v = is_active v.status && not (allowed v.status target)

abbrev pub settled_all : String → Status → Option String → Dict Step → Dict Step
settled_all now target reason d = map (λ p. (p.0, settled now target reason p.1)) d

-- The statuses in which `settle` leaves a step.
abbrev pub Closing : Status → Type 0
Closing target =
    (is_active target ≡ false)
    × (wants_result target ≡ false)
    × (same pending target ≡ false)
    × (same running target ≡ false)

settle_item-Fresh :
    (now : String) (target : Status) (reason : Option String) (key : String) (v : Step)
    (xs ys : Dict Step) (s : State)
    → Closing target
    → Fresh key v.result_id xs
    → s.work_items ≡ xs ++ (key, v) ∷ ys
    → settle_item now target reason key s ≡ (
        if is_blocked target v
        then err invalid_step_transition
        else ok (record s { work_items = xs ++ (key, settled now target reason v) ∷ ys }))
unfolding settle_item transition check_result
settle_item-Fresh now target reason key v xs ys s c h e = ground (
  arith,
  lookup-Fresh key v xs ys h,
  find-Fresh key v.result_id v xs ys refl h,
  update-Fresh key v.result_id (enter now target none) v xs ys refl h,
  mark-Fresh key v.result_id reason (enter now target none v) xs ys h,
)

result_id-settled :
    (now : String) (target : Status) (reason : Option String) (v : Step)
    → (settled now target reason v).result_id ≡ v.result_id
unfolding enter
result_id-settled now target reason v = ground arith

Fresh-settled :
    (now : String) (target : Status) (reason : Option String) (key id : String) (d : Dict Step)
    → Fresh key id d
    → Fresh key id (settled_all now target reason d)
Fresh-settled now target reason key id [] h = h
Fresh-settled now target reason key id ((k, v) ∷ d) h = (
  h.0,
  rw (result_id-settled now target reason v) h.1,
  Fresh-settled now target reason key id d h.2,
)

settled_all-snoc :
    (now : String) (target : Status) (reason : Option String) (k : String) (v : Step)
    (xs ys : Dict Step)
    → settled_all now target reason (xs ++ (k, v) ∷ []) ++ ys
      ≡ settled_all now target reason xs ++ (k, settled now target reason v) ∷ ys
settled_all-snoc now target reason k v [] ys = refl
settled_all-snoc now target reason k v (x ∷ xs) ys =
    rw (settled_all-snoc now target reason k v xs ys)

settle_items_lem :
    (now : String) (target : Status) (reason : Option String) (before ds : Dict Step) (s : State)
    → Closing target
    → Distinct before ds
    → s.work_items ≡ settled_all now target reason before ++ ds
    → settle_items now target reason (map (λ p. p.0) ds) s ≡ (
        if any (λ p. is_blocked target p.1) ds
        then err invalid_step_transition
        else ok (record s {
          work_items = settled_all now target reason before ++ settled_all now target reason ds;
        }))
unfolding settle_items
settle_items_lem now target reason before [] s c h e = ground (arith, e)
settle_items_lem now target reason before ((k, v) ∷ ds) s c h e =
    let here =
      settle_item-Fresh now target reason k v (settled_all now target reason before) ds s c
        (Fresh-settled now target reason k v.result_id before h.0) e in
    let after : State = record s {
      work_items = settled_all now target reason before ++ (k, settled now target reason v) ∷ ds;
    } in
    elim (Bool-cases (is_blocked target v)) [
      | inl b ↦ rw (here, b)
      | inr b ↦
          rw (here, b)
            (settle_items_lem now target reason (before ++ (k, v) ∷ []) ds after c h.1
                (sym (settled_all-snoc now target reason k v before ds))
              ∙ ap
                  (λ (d : Dict Step).
                    if any (λ p. is_blocked target p.1) ds
                    then err invalid_step_transition
                    else ok (record s { work_items = d }))
                  (settled_all-snoc now target reason k v before
                    (settled_all now target reason ds)))
    ]

-- Settling a ledger with distinct keys and result ids, for any outcome: every pending or running
-- step is written as `settled` says and no other step changes, unless a step is still running and
-- the outcome is `waiting_input`, whose target `skipped` no running step may take: then it raises.
pub settle-eq-settled_all :
    (now : String) (s : State) (outcome : Outcome) (reason : Option String)
    → Distinct [] s.work_items
    → settle now s outcome reason ≡ (
        if any (λ p. is_blocked (settle_target outcome) p.1) s.work_items
        then err invalid_step_transition
        else (let d = settled_all now (settle_target outcome) reason s.work_items in
            ok (record s { work_items = d }, final_outcome outcome d)))
unfolding settle
settle-eq-settled_all now s outcome reason h =
    rw
      (settle_items_lem now (settle_target outcome) reason [] s.work_items s (closing outcome) h
        refl)
      (ground arith)
  where
    closing : (o : Outcome) → Closing (settle_target o)
    closing Outcome.cancelled = (refl, refl, refl, refl)
    closing _ = (refl, refl, refl, refl)

IsClosed-settled :
    (now : String) (target : Status) (reason : Option String) (d : Dict Step)
    → Closing target
    → any (λ p. is_active p.1.status) (settled_all now target reason d) ≡ false
unfolding enter
IsClosed-settled now target reason [] c = refl
IsClosed-settled now target reason ((k, v) ∷ d) c =
    ground (arith, IsClosed-settled now target reason d c)

-- In a ledger whose keys and whose result ids are distinct, nothing stays pending or running after a
-- turn has settled, for any outcome: where `settle` returns, every step has ended.
pub settle_closes :
    (now : String) (s : State) (outcome : Outcome) (reason : Option String) (s' : State)
    (o : Outcome)
    → Distinct [] s.work_items
    → settle now s outcome reason ≡ ok (s', o)
    → any (λ p. is_active p.1.status) s'.work_items ≡ false
settle_closes now s outcome reason s' o h e = ground (
  arith,
  settle-eq-settled_all now s outcome reason h,
  IsClosed-settled now (settle_target outcome) reason s.work_items (closing outcome),
)
  where
    closing : (o : Outcome) → Closing (settle_target o)
    closing Outcome.cancelled = (refl, refl, refl, refl)
    closing _ = (refl, refl, refl, refl)
