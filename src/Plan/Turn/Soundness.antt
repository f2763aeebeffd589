-- ===== src/Plan/Turn/Soundness.antt =====
-- What each recorded status of agent_runtime/execution_plan.py rests on.
use hommey.Plan.{
  State, Status, Step, check_result, find, transition, update, WorkItem, is_active, new_step,
  register, pending, Outcome, enter, same, wants_result,
}
use hommey.Plan.Turn.{mark, settle_item, resume_step, settle_items, resume, settle, settle_target}
use hommey.Plan.Rights.{Earned, Claims-wants_result}
use hommey.Plan.Transitions.{Moved, transition-Moved}
use hommey.Prelude.{
  Bool-cases, Dict, List, Option, Option-cases, Result-cases, String, [], arith, elem, eq_iff,
  eq_refl, false, if◌then◌else◌, inl, inr, insert, is_some, leb, lookup, map, none, ok, or_else,
  refl, some, subst, ◌&&◌, ◌==◌, ◌∷◌, ◌≡◌, ◌⊎◌, String_eq, ℕ_eq,
}

-- A step that ended `completed`, `partial` or `needs_input` has a saved report of that status, applied
-- if it proposes a change of the trip.
abbrev pub IsBacked : State → Step → Type 0
IsBacked s v = Earned s v.result_id v.status

pub record IsSound (s : State) : Type 0 where
  pub backed : (id : String) (v : Step) → find id s.work_items ≡ some v → IsBacked s v

found_id : (id : String) (d : Dict Step) (v : Step) → find id d ≡ some v → v.result_id ≡ id
unfolding find
found_id id [] v h = cc
found_id id ((k, w) ∷ d) v h = ground (arith, eq_iff w.result_id id, found_id id d v)

find-update_self :
    (id j : String) (w : Step) (d : Dict Step)
    → w.result_id ≡ id
    → find j (update id (λ _. w) d) ≡ (if id == j && is_some (find id d) then some w else find j d)
unfolding find update
find-update_self id j w [] e = ground arith
find-update_self id j w ((k, v) ∷ d) e = ground (
  arith,
  eq_iff v.result_id id,
  eq_iff v.result_id j,
  eq_iff w.result_id j,
  eq_iff id j,
  find-update_self id j w d e,
)

-- Writing one step, backed by its result, keeps a sound ledger sound.
write-IsSound :
    (s : State) (id : String) (w : Step)
    → IsSound s
    → w.result_id ≡ id
    → IsBacked s w
    → IsSound (record s { work_items = update id (λ _. w) s.work_items })
write-IsSound s id w h wid k = record {
  backed = λ j u f. elim (Bool-cases (id == j && is_some (find id s.work_items))) [
    | inl b ↦
        let uw : w ≡ u = ground (arith, find-update_self id j w s.work_items wid, b) in rw (← uw) k
    | inr b ↦ h.backed j u (ground (arith, find-update_self id j w s.work_items wid, b))
  ];
}

-- Every successful transition keeps the ledger sound: each step that is `completed`, `partial` or
-- `needs_input` has a saved report of the status that this claims, and if the report proposes a
-- change of the trip, that was applied.
pub transition-IsSound :
    (now : String) (s s' : State) (id : String) (target : Status) (reason : Option String)
    → IsSound s
    → transition now s id target reason ≡ ok s'
    → IsSound s'
unfolding enter
transition-IsSound now s s' id target reason h t =
    elim ((transition-Moved now s s' id target reason).0 t) [
      | Moved.stayed v e q p ↦ rw p h
      | Moved.moved v e g p c u ↦
          let w = enter now target reason v in
          let wid : w.result_id ≡ id = found_id id s.work_items v e in
          let wstatus : w.status ≡ target = refl in
          rw p (write-IsSound s id w h wid (λ x k. rw wid (c x k)))
    ]

mark-IsBacked :
    (s : State) (j key : String) (r : Option String) (d : Dict Step)
    → ((v : Step) → find j d ≡ some v → IsBacked s v)
    → (u : Step) → find j (mark key r d) ≡ some u
    → IsBacked s u
unfolding find mark
mark-IsBacked s j key r [] h u e = h u e
mark-IsBacked s j key r ((k, v) ∷ d) h u e = elim (Bool-cases (k == key)) [
  | inl a ↦ elim (Bool-cases (v.result_id == j)) [
    | inl b ↦
        let q : record v { error_code = r } ≡ u = ground (arith, a, b, e) in
        rw (← q) (h v (ground (arith, b)))
    | inr b ↦ h u (ground (arith, a, b, e))
  ]
  | inr a ↦ elim (Bool-cases (v.result_id == j)) [
    | inl b ↦ h u (ground (arith, a, b, e))
    | inr b ↦
        mark-IsBacked s j key r d (λ w f. h w (ground (arith, b, f))) u (ground (arith, a, b, e))
  ]
]

settle_item-IsSound :
    (now : String) (target : Status) (reason : Option String) (key : String) (s s' : State)
    → IsSound s
    → settle_item now target reason key s ≡ ok s'
    → IsSound s'
unfolding settle_item check_result
settle_item-IsSound now target reason key s s' h e = elim (Option-cases (lookup key s.work_items)) [
  | inl a ↦ let q : s ≡ s' = ground (arith, a, e) in rw (← q) h
  | inr (v, a) ↦ elim (Bool-cases (is_active v.status)) [
    | inl b ↦ elim (Result-cases (transition now s v.result_id target none)) [
      | inl (x, p) ↦ ground (arith, a, b, e, p)
      | inr (t, p) ↦
          let q : record t { work_items = mark key reason t.work_items } ≡ s' =
            ground (arith, a, b, e, p) in
          let t-IsSound = transition-IsSound now s t v.result_id target none h p in
          rw (← q) (record {
            backed = λ j. mark-IsBacked t j key reason t.work_items (t-IsSound.backed j);
          })
    ]
    | inr b ↦ let q : s ≡ s' = ground (arith, a, b, e) in rw (← q) h
  ]
]

settle_items-IsSound :
    (now : String) (target : Status) (reason : Option String) (keys : List String) (s s' : State)
    → IsSound s
    → settle_items now target reason keys s ≡ ok s'
    → IsSound s'
unfolding settle_items
settle_items-IsSound now target reason [] s s' h e =
    let q : s ≡ s' = ground (arith, e) in rw (← q) h
settle_items-IsSound now target reason (key ∷ keys) s s' h e =
    elim (Result-cases (settle_item now target reason key s)) [
      | inl (x, p) ↦ ground (arith, e, p)
      | inr (t, p) ↦
          settle_items-IsSound now target reason keys t s'
            (settle_item-IsSound now target reason key s t h p) (ground (arith, e, p))
    ]

-- A status that claims no result needs none.
unclaimed : (s : State) (id : String) (a : Status) → wants_result a ≡ false → Earned s id a
unclaimed s id a h x c = absurd (ground (arith, h, Claims-wants_result a x c))

resume_step-cases :
    (children : List String) (v : Step)
    → (resume_step children v ≡ v) ⊎ (wants_result (resume_step children v).status ≡ false)
unfolding resume_step
resume_step-cases children v =
    elim (Bool-cases (same v.status Status.cancelled && elem v.result_id children)) [
      | inr b ↦ inl (rw b refl)
      | inl b ↦ elim (Bool-cases (leb 2 (or_else v.attempts 1))) [
        | inl c ↦ inr (rw (b, c) refl)
        | inr c ↦ inr (rw (b, c) refl)
      ]
    ]

resume_step-IsBacked : (s : State) (v : Step) → IsBacked s v → IsBacked s (resume_step s.children v)
resume_step-IsBacked s v h = elim (resume_step-cases s.children v) [
  | inl e ↦ rw e h
  | inr e ↦ unclaimed s (resume_step s.children v).result_id (resume_step s.children v).status e
]

abbrev resumed : List String → Dict Step → Dict Step
resumed children d = map (λ p. (p.0, resume_step children p.1)) d

result_id-resume_step : (c : List String) (v : Step) → (resume_step c v).result_id ≡ v.result_id
unfolding resume_step
result_id-resume_step c v = ground arith

resumed-IsBacked :
    (s : State) (j : String) (d : Dict Step)
    → ((v : Step) → find j d ≡ some v → IsBacked s v)
    → (u : Step) → find j (resumed s.children d) ≡ some u
    → IsBacked s u
unfolding find
resumed-IsBacked s j [] h u e = h u e
resumed-IsBacked s j ((k, v) ∷ d) h u e =
    let same_id = result_id-resume_step s.children v in
    elim (Bool-cases (v.result_id == j)) [
      | inl b ↦
          let q : resume_step s.children v ≡ u = ground (arith, b, e, same_id) in
          rw (← q) (resume_step-IsBacked s v (h v (ground (arith, b))))
      | inr b ↦
          resumed-IsBacked s j d (λ w f. h w (ground (arith, b, f))) u
            (ground (arith, b, e, same_id))
    ]

find-insert_new :
    (j key : String) (w : Step) (d : Dict Step)
    → lookup key d ≡ none
    → find j (insert key w d)
      ≡ elim (find j d) [ some v ↦ some v | none ↦ if w.result_id == j then some w else none ]
unfolding find insert lookup
find-insert_new j key w [] n = refl
find-insert_new j key w ((i, v) ∷ d) n = ground (arith, find-insert_new j key w d)

-- Registering under a new key keeps the ledger sound, is found by its result id afterwards, and
-- registering the same result id again changes nothing and gives back the step that is there.
pub register-IsSound :
    (s : State) (key key' : String) (item item' : WorkItem) (title purpose : Option String)
    → IsSound s
    → lookup key s.work_items ≡ none
    → item'.result_id ≡ item.result_id
    → let (s', v) = register s key item title purpose in
      IsSound s'
      × (find item.result_id s'.work_items ≡ some v)
      × (register s' key' item' title purpose ≡ (s', v))
unfolding register new_step check_result
register-IsSound s key key' item item' title purpose h n e =
    elim (Option-cases (find item.result_id s.work_items)) [
      | inr (v, a) ↦ (rw (a, register) h, ground (arith, a), ground (arith, a, e))
      | inl a ↦
          let w = new_step item title purpose in
          (
            rw (a, register) (inserted (new_step item title purpose) refl),
            ground (
              arith,
              a,
              eq_refl item.result_id,
              find-insert_new item.result_id key w s.work_items n,
            ),
            ground (
              arith,
              a,
              e,
              eq_refl item.result_id,
              find-insert_new item.result_id key w s.work_items n,
            ),
          )
    ]
  where
    inserted :
        (w : Step)
        → w.status ≡ pending
        → IsSound (record s { work_items = insert key w s.work_items })
    inserted w q = record {
      backed = λ j u f. elim (Option-cases (find j s.work_items)) [
        | inl b ↦
            let k : w ≡ u = ground (arith, b, f, find-insert_new j key w s.work_items n) in
            λ r. ground (arith, k, q, r)
        | inr (v, b) ↦
            let k : v ≡ u = ground (arith, b, f, find-insert_new j key w s.work_items n) in
            subst (λ x. IsBacked s x) k (h.backed j v b)
      ];
    }

resume-IsSound : (s : State) → IsSound s → IsSound (resume s)
unfolding resume check_result
resume-IsSound s h = record { backed = λ j. resumed-IsBacked s j s.work_items (h.backed j) }

-- Whatever ends or resumes a turn keeps its ledger sound: settling it for any outcome, where that
-- returns, and resuming it.
pub settle-resume-IsSound :
    (now : String) (s s' : State) (outcome o : Outcome) (reason : Option String)
    → IsSound s
    → settle now s outcome reason ≡ ok (s', o)
    → IsSound s' × IsSound (resume s')
unfolding settle
settle-resume-IsSound now s s' outcome o reason h e =
    elim (Result-cases
      (settle_items now (settle_target outcome) reason (map (λ p. p.0) s.work_items) s)) [
        | inl (x, p) ↦ ground (arith, e, p)
        | inr (t, p) ↦
            let t-IsSound =
              settle_items-IsSound now (settle_target outcome) reason (map (λ p. p.0) s.work_items)
                s t h p in
            let q : t ≡ s' = ground (arith, e, p) in
            (subst IsSound q t-IsSound, resume-IsSound s' (subst IsSound q t-IsSound))
      ]
