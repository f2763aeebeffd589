-- ===== src/Runs/Fencing.antt =====
-- A turn that begins in agent_runtime/store.py, and the earlier workers of its session.
use hommey.Runs.Rows.{
  Db, Run, RunStatus, Scope, Trip, is_key, is_owned, is_running, runtime_stopped, Session,
  is_request, Checkpoint, Sanitizer, is_completed,
}
use hommey.Runs.Turns.{
  taken_over, Begun, begin, check, inserted, interrupt, new_run, other_running, retained, take_over,
  with_runs, begin_run, save,
}
use hommey.Runs.Trips.{Change, apply}
use hommey.Prelude.{
  Bool, Bool-cases, List, Option, Option-cases, String, [], any, any-find_by, any-map, any-never,
  arith, eq_iff, err, false, find_by, find_by-holds, if◌then◌else◌, inl, inr, ltb, map, not, ok,
  refl, some, subst, true, ℕ, ◌&&◌, ◌++◌, ◌==◌, ◌||◌, ◌∙◌, ◌∷◌, ◌≡◌, ◌≢◌, String_eq, ℕ_eq,
}

apply-unowned :
    (digest : Trip → ℕ) (now : ℕ) (fresh : String) (scope : Scope) (owner : String) (c : Change)
    (db : Db)
    → any (is_owned scope owner) db.runs ≡ false
    → apply digest now fresh scope owner c db ≡ err runtime_stopped
unfolding apply
apply-unowned digest now fresh scope owner c db h =
    elim (Option-cases (find_by (is_key scope) db.runs)) [
      | inl e ↦ rw (e, apply)
      | inr (r, e) ↦
          let key = find_by-holds (is_key scope) db.runs r e in
          elim (Bool-cases (is_owned scope owner r)) [
            | inl b ↦
                let t = any-find_by (is_key scope) (is_owned scope owner) db.runs r e b in
                absurd (ground (arith, t, h))
            | inr b ↦
                let guard : (not (r.owner == owner)
                      || r.cancel_requested
                      || not (is_running r.status))
                    ≡ true =
                  ground (arith, key, b) in
                rw (e, guard, apply)
          ]
    ]

taken_over-unowned :
    (now : ℕ) (scope : Scope) (owner : String) (other : Scope) (stale : String) (rs : List Run)
    → other.user_id ≡ scope.user_id
    → other.session_key ≡ scope.session_key
    → stale ≢ owner
    → any (is_owned other stale) (taken_over now scope owner rs) ≡ false
taken_over-unowned now scope owner other stale rs u s n =
    let own = λ (x : Run). if is_request scope x then take_over now owner x else x in
    let cut = λ (x : Run). if other_running scope x then interrupt now x else x in
    any-map own (is_owned other stale) (map cut rs)
    ∙ any-map cut (λ x. is_owned other stale (own x)) rs
    ∙ any-never (λ x. is_owned other stale (own (cut x))) rs
        (λ x. ground (
          arith,
          u,
          s,
          n,
          eq_iff owner stale,
          eq_iff x.user_id other.user_id,
          eq_iff x.session_id other.session_key,
          eq_iff x.request_id scope.request_id,
        ))

taken_over-owned :
    (now : ℕ) (scope : Scope) (owner : String) (rs : List Run) (row : Run)
    → find_by (is_request scope) rs ≡ some row
    → row.session_id ≡ scope.session_key
    → any (is_owned scope owner) (taken_over now scope owner rs) ≡ true
taken_over-owned now scope owner rs row e s =
    let own = λ (x : Run). if is_request scope x then take_over now owner x else x in
    let cut = λ (x : Run). if other_running scope x then interrupt now x else x in
    let req = find_by-holds (is_request scope) rs row e in
    any-map own (is_owned scope owner) (map cut rs)
    ∙ any-map cut (λ x. is_owned scope owner (own x)) rs
    ∙ any-find_by (is_request scope) (λ x. is_owned scope owner (own (cut x))) rs row e
        (ground (arith, s, req, eq_iff owner owner, eq_iff row.session_id scope.session_key))

retained-open :
    (now : ℕ) (scope : Scope) (rs : List Run)
    → any (λ r. is_request scope r && is_completed r.status) rs ≡ false
    → any (λ r. is_request scope r && is_completed r.status) (retained now scope rs) ≡ false
retained-open now scope [] h = refl
retained-open now scope (r ∷ rs) h =
    elim (Bool-cases (r.user_id == scope.user_id && ltb r.retention_until now)) [
      | inl b ↦ rw b (retained-open now scope rs (ground (arith, h)))
      | inr b ↦ rw b (ground (arith, h, retained-open now scope rs))
    ]

any-append : (q : Run → Bool) (rs : List Run) (r : Run) → any q (rs ++ r ∷ []) ≡ (any q rs || q r)
any-append q [] r = ground arith
any-append q (x ∷ rs) r = ground (arith, any-append q rs r)

inserted-open :
    (now : ℕ) (scope : Scope) (h owner : String) (sessions : List Session) (rs : List Run)
    → any (λ r. is_request scope r && is_completed r.status) rs ≡ false
    → any
        (λ r. is_request scope r && is_completed r.status)
        (inserted now scope h owner sessions rs)
      ≡ false
inserted-open now scope h owner sessions rs o = ground (
  arith,
  o,
  any-append (λ r. is_request scope r && is_completed r.status) rs (new_run now scope h owner),
)

begin_run-taken :
    (now : ℕ) (scope : Scope) (h owner : String) (db : Db) (b : Begun) (after : Db)
    → any (λ r. is_request scope r && is_completed r.status) db.runs ≡ false
    → begin_run now scope h owner db ≡ ok (b, after)
    → (row : Run) × (find_by (is_request scope) db.runs ≡ some row)
      × (row.session_id ≡ scope.session_key)
      × (with_runs db (taken_over now scope owner db.runs) ≡ after)
unfolding begin_run
begin_run-taken now scope h owner db b after o e =
    elim (Option-cases (find_by (is_request scope) db.runs)) [
      | inl n ↦ ground (arith, n, e)
      | inr (row, f) ↦
          let req = find_by-holds (is_request scope) db.runs row f in
          let unfinished : is_completed row.status ≡ false =
            elim (Bool-cases (is_completed row.status)) [
              | inr c ↦ c
              | inl c ↦
                  let t =
                    any-find_by (is_request scope)
                      (λ r. is_request scope r && is_completed r.status) db.runs row f
                      (ground (arith, req, c)) in
                  absurd (ground (arith, t, o))
            ] in
          (
            row,
            f,
            ground (arith, f, e, unfinished, eq_iff row.session_id scope.session_key),
            ground (arith, f, e, unfinished),
          )
    ]

-- A turn that begins on a request that is not completed owns its session: the new owner passes
-- `_check`, and for every request of the session an older owner fails `_check`, and its `_save` and
-- `_apply` are refused.
pub begin_fences :
    (now : ℕ) (scope : Scope) (h owner : String) (db : Db) (b : Begun) (after : Db) (other : Scope)
    (stale : String) (digest : Trip → ℕ) (later : ℕ) (fresh : String) (c : Change) (s : Sanitizer)
    (checkpoint : Checkpoint) (response : Option String) (status : RunStatus)
    → any (λ r. is_request scope r && is_completed r.status) db.runs ≡ false
    → begin now scope h owner db ≡ ok (b, after)
    → other.user_id ≡ scope.user_id
    → other.session_key ≡ scope.session_key
    → stale ≢ owner
    → (check scope owner after ≡ ok tt)
      × (check other stale after ≡ err runtime_stopped)
      × (save later s other stale checkpoint response status after ≡ err runtime_stopped)
      × (apply digest later fresh other stale c after ≡ err runtime_stopped)
unfolding begin check save
begin_fences now scope h owner db b after other stale digest later fresh c s checkpoint response
      status o e u k n =
    let runs = inserted now scope h owner db.sessions (retained now scope db.runs) in
    let (row, f, same, taken) =
      begin_run-taken now scope h owner (with_runs db runs) b after
        (inserted-open now scope h owner db.sessions (retained now scope db.runs)
          (retained-open now scope db.runs o))
        e in
    let owned : any (is_owned scope owner) after.runs ≡ true =
      subst (λ d. any (is_owned scope owner) d.runs ≡ true) taken
        (taken_over-owned now scope owner runs row f same) in
    let unowned : any (is_owned other stale) after.runs ≡ false =
      subst (λ d. any (is_owned other stale) d.runs ≡ false) taken
        (taken_over-unowned now scope owner other stale runs u k n) in
    (rw owned, rw unowned, rw unowned, apply-unowned digest later fresh other stale c after unowned)
