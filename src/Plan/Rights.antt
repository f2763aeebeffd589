-- ===== src/Plan/Rights.antt =====
-- agent_runtime/execution_plan.py: when a step may change its status, said without the code's tests.
use hommey.Plan.{
  ReportStatus, SpecialistResult, State, Status, allowed, matches, pending, running, same, skipped,
  success, trip_context, wants_result, check_result, dependency_ready, is_proposal,
}
use hommey.Prelude.{
  All, Bool-cases, Dict, List, Option-cases, String, [], all, arith, elem, false, inl, inr, lookup,
  ok, or_else, refl, some, true, ◌==◌, ◌∷◌, ◌≡◌, ◌⊎◌, String_eq, ℕ_eq,
}

-- The edges of the state machine.
abbrev pub Edge : Status → Status → Type 0
Edge a b =
    ((a ≡ pending)
      × ((b ≡ running) ⊎ ((b ≡ skipped) ⊎ ((b ≡ Status.cancelled) ⊎ (b ≡ Status.failed)))))
    ⊎ ((a ≡ running)
        × ((b ≡ Status.completed)
            ⊎ ((b ≡ Status.partial)
                ⊎ ((b ≡ Status.needs_input) ⊎ ((b ≡ Status.failed) ⊎ (b ≡ Status.cancelled))))))

-- A status that claims a result, and the status of the report that it claims.
abbrev pub Claims : Status → ReportStatus → Type 0
Claims a x =
    ((a ≡ Status.completed) × (x ≡ success))
    ⊎ (((a ≡ Status.partial) × (x ≡ ReportStatus.partial))
        ⊎ ((a ≡ Status.needs_input) × (x ≡ ReportStatus.needs_input)))

-- A report on the trip that brings a trip, or an action other than an update.
pub data Proposes (r : SpecialistResult) : Type 0 where
  with_trip : r.role ≡ trip_context → r.has_trip ≡ true → Proposes r
  with_action :
      (a : String)
      → r.role ≡ trip_context
      → r.trip_action ≡ some a
      → (a == "update") ≡ false
      → Proposes r

-- The saved report that backs a claim: a change of the trip that it proposes was applied.
pub record IsEarned (results : Dict SpecialistResult) (applied : List String) (id : String)
    (x : ReportStatus) : Type 0 where
  pub report : SpecialistResult
  pub is_saved : lookup id results ≡ some report
  pub same_status : report.status ≡ x
  pub is_applied : Proposes report → elem id applied ≡ true

abbrev pub Earned : State → String → Status → Type 0
Earned s id target =
    (x : ReportStatus) → Claims target x → IsEarned s.results s.applied_results id x

-- A dependency that has a usable result.
pub record IsUsable (s : State) (dep : String) : Type 0 where
  pub report : SpecialistResult
  pub is_saved : lookup dep s.results ≡ some report
  pub is_good : (report.status ≡ success) ⊎ (report.status ≡ ReportStatus.partial)
  pub is_kept : elem dep s.discarded_results ≡ false

pub allowed-Edge : (a b : Status) → allowed a b ≡ true → Edge a b
allowed-Edge a b h = ground (arith, h)

pub Edge-allowed : (a b : Status) → Edge a b → allowed a b ≡ true
Edge-allowed a b h = ground (arith, h)

pub Edge-same : (a b : Status) → Edge a b → same a b ≡ false
Edge-same a b h = ground (arith, h)

pub Claims-wants_result : (a : Status) (x : ReportStatus) → Claims a x → wants_result a ≡ true
Claims-wants_result a x h = ground (arith, h)

Claims-matches : (a : Status) (x y : ReportStatus) → Claims a x → matches a y ≡ true → y ≡ x
Claims-matches a x y h m = ground (arith, h, m)

claimed :
    (a : Status)
    → wants_result a ≡ true
    → (x : ReportStatus) × (Claims a x × ((y : ReportStatus) → y ≡ x → matches a y ≡ true))
claimed Status.completed h = (success, (inl (refl, refl), λ y e. rw e refl))
claimed Status.partial h = (ReportStatus.partial, (inr (inl (refl, refl)), λ y e. rw e refl))
claimed Status.needs_input h =
    (ReportStatus.needs_input, (inr (inr (refl, refl)), λ y e. rw e refl))
claimed pending h = absurd (ground (arith, h))
claimed running h = absurd (ground (arith, h))
claimed Status.failed h = absurd (ground (arith, h))
claimed skipped h = absurd (ground (arith, h))
claimed Status.cancelled h = absurd (ground (arith, h))

proposal-Proposes : (r : SpecialistResult) → is_proposal r ≡ true → Proposes r
unfolding is_proposal
proposal-Proposes r h = elim (Bool-cases r.has_trip) [
  | inl b ↦ Proposes.with_trip (ground (arith, h)) b
  | inr b ↦ elim (Option-cases r.trip_action) [
    | inl n ↦
        let u : (or_else r.trip_action "update" == "update") ≡ true = rw n refl in
        absurd (ground (arith, h, b, u))
    | inr (a, e) ↦ Proposes.with_action a (ground (arith, h)) e (ground (arith, h, b, e))
  ]
]

Proposes-proposal : (r : SpecialistResult) → Proposes r → is_proposal r ≡ true
unfolding is_proposal
Proposes-proposal r (with_trip e b) = ground (arith, e, b)
Proposes-proposal r (with_action a e f n) = ground (arith, e, f, n)

-- What the code's test of the result says, and the other way round.
pub check_result-Earned :
    (s : State) (id : String) (target : Status)
    → check_result s id target ≡ ok tt
    → Earned s id target
unfolding check_result
check_result-Earned s id target h x c =
    let w = Claims-wants_result target x c in
    elim (Option-cases (lookup id s.results)) [
      | inl e ↦ absurd (ground (arith, h, w, e))
      | inr (r, e) ↦
          let m : matches target r.status ≡ true = ground (arith, h, w, e) in
          record {
            report = r;
            is_saved = e;
            same_status = Claims-matches target x r.status c m;
            is_applied = λ p. ground (arith, h, w, e, m, Proposes-proposal r p);
          }
    ]

pub Earned-check_result :
    (s : State) (id : String) (target : Status)
    → Earned s id target
    → check_result s id target ≡ ok tt
unfolding check_result
Earned-check_result s id target h = elim (Bool-cases (wants_result target)) [
  | inr b ↦ rw b refl
  | inl b ↦
      let (x, (c, m)) = claimed target b in
      let k = h x c in
      let n : matches target k.report.status ≡ true = m k.report.status k.same_status in
      elim (Bool-cases (is_proposal k.report)) [
        | inr p ↦ ground (arith, b, k.is_saved, n, p)
        | inl p ↦ ground (arith, b, k.is_saved, n, p, k.is_applied (proposal-Proposes k.report p))
      ]
]

ready-IsUsable : (s : State) (dep : String) → dependency_ready s dep ≡ true → IsUsable s dep
unfolding dependency_ready
ready-IsUsable s dep h = elim (Option-cases (lookup dep s.results)) [
  | inl e ↦ absurd (ground (arith, h, e))
  | inr (r, e) ↦ record {
    report = r;
    is_saved = e;
    is_good = ground (arith, h, e);
    is_kept = ground (arith, h, e);
  }
]

IsUsable-ready : (s : State) (dep : String) → IsUsable s dep → dependency_ready s dep ≡ true
unfolding dependency_ready
IsUsable-ready s dep h = ground (arith, h.is_saved, h.is_good, h.is_kept)

pub all-AreUsable :
    (s : State) (deps : List String) → all (dependency_ready s) deps ≡ true → All (IsUsable s) deps
all-AreUsable s [] h = tt
all-AreUsable s (d ∷ ds) h = elim (Bool-cases (dependency_ready s d)) [
  | inl b ↦ (ready-IsUsable s d b, all-AreUsable s ds (ground (arith, h, b)))
  | inr b ↦ absurd (ground (arith, h, b))
]

pub AreUsable-all :
    (s : State) (deps : List String) → All (IsUsable s) deps → all (dependency_ready s) deps ≡ true
AreUsable-all s [] h = refl
AreUsable-all s (d ∷ ds) h = rw (IsUsable-ready s d h.0) (AreUsable-all s ds h.1)
