-- ===== src/Runs/Single/Begin.antt =====
-- `_begin` of agent_runtime/store.py, and the running runs of its session.
use hommey.Runs.Rows.{Db, Run, Scope, is_completed, is_request}
use hommey.Runs.Turns.{
  Begun, begin, begin_run, interrupt, is_open, new_run, other_running, retained, take_over,
  taken_over, with_runs,
}
use hommey.Runs.Single.{IsSingle, has_key, runs_in}
use hommey.Prelude.{
  All, All-imp, All-trivial, Bool-cases, List, Option-cases, String, [], any, arith, count,
  count-any, count-append, count-find_by, count-keep, count-map, eq_iff, false, find_by,
  find_by-append, find_by-none, if◌then◌else◌, inl, inr, ltb, map, not, ok, some, subst, sym, true,
  ℕ, ◌&&◌, ◌++◌, ◌==◌, ◌∷◌, ◌≡◌, ◌≤◌, String_eq, ℕ_eq,
}

-- What holds before the two last statements of `_begin`: the session may have a run too many.
record IsPending (scope : Scope) (rs : List Run) : Type 0 where
  keyed : (user request : String) → count (has_key user request) rs ≤ 1
  others :
      (user session : String)
      → (user == scope.user_id && session == scope.session_key) ≡ false
      → count (runs_in user session) rs ≤ 1

Placed : Scope → Run → Type 0
Placed scope r = is_request scope r ≡ true → r.session_id ≡ scope.session_key

taken_over-IsSingle :
    (now : ℕ) (scope : Scope) (owner : String) (rs : List Run)
    → All (Placed scope) rs
    → IsPending scope rs
    → IsSingle (taken_over now scope owner rs)
unfolding Placed
taken_over-IsSingle now scope owner rs placed h =
    let own = λ (x : Run). if is_request scope x then take_over now owner x else x in
    let cut = λ (x : Run). if other_running scope x then interrupt now x else x in
    let trivial = All-trivial (map cut rs) in
    record {
      keyed = λ user request. omega (
        arith,
        h.keyed user request,
        count-map {Q = λ _. Unit {0}} (has_key user request) (has_key user request) own (map cut rs)
            (λ x _ t. ground (arith, t)) trivial,
        count-map {Q = λ _. Unit {0}} (has_key user request) (has_key user request) cut rs
            (λ x _ t. ground (arith, t)) (All-trivial rs),
      );
      single = λ user session.
          let outer =
            count-map {Q = λ _. Unit {0}} (runs_in user session) (λ x. runs_in user session (own x))
              own (map cut rs) (λ x _ t. t) trivial in
          elim (Bool-cases (user == scope.user_id && session == scope.session_key)) [
            | inl b ↦ omega (
              arith,
              outer,
              h.keyed scope.user_id scope.request_id,
              count-map {Q = λ _. Unit {0}} (λ x. runs_in user session (own x))
                  (has_key scope.user_id scope.request_id) cut rs
                  (λ x _ t.
                    ground
                      (arith, t, b, eq_iff user scope.user_id, eq_iff session scope.session_key))
                  (All-trivial rs),
            )
            | inr b ↦ omega (
              arith,
              outer,
              h.others user session b,
              count-map {Q = Placed scope} (λ x. runs_in user session (own x))
                  (runs_in user session) cut rs
                  (λ x q t. ground (
                    arith,
                    t,
                    b,
                    q,
                    eq_iff x.user_id user,
                    eq_iff x.user_id scope.user_id,
                    eq_iff x.session_id session,
                    eq_iff user scope.user_id,
                    eq_iff session scope.session_key,
                  ))
                  placed,
            )
          ];
    }

all-Placed :
    (scope : Scope) (rs : List Run) (row : Run)
    → count (has_key scope.user_id scope.request_id) rs ≤ 1
    → find_by (is_request scope) rs ≡ some row
    → row.session_id ≡ scope.session_key
    → All (Placed scope) rs
unfolding Placed
all-Placed scope rs row h f s =
    All-imp rs (λ x k t. subst (λ y. y.session_id ≡ scope.session_key) (sym (k t)) s)
      (count-find_by (is_request scope) row rs h f)

-- The rest of `_begin`, where a completed run that is found leaves the table as it should be.
begin_run-IsSingle :
    (now : ℕ) (scope : Scope) (h owner : String) (db : Db) (b : Begun) (after : Db)
    → IsPending scope db.runs
    → ((row : Run)
        → find_by (is_request scope) db.runs ≡ some row
        → is_completed row.status ≡ true
        → IsSingle db.runs)
    → begin_run now scope h owner db ≡ ok (b, after)
    → IsSingle after.runs
unfolding begin_run
begin_run-IsSingle now scope h owner db b after p d e =
    elim (Option-cases (find_by (is_request scope) db.runs)) [
      | inl n ↦ ground (arith, n, e)
      | inr (row, f) ↦ elim (Bool-cases (is_completed row.status)) [
        | inl c ↦
            let k : db ≡ after = ground (arith, f, c, e) in
            subst (λ x. IsSingle x.runs) k (d row f c)
        | inr c ↦
            let s : row.session_id ≡ scope.session_key =
              ground (arith, f, c, e, eq_iff row.session_id scope.session_key) in
            let k : with_runs db (taken_over now scope owner db.runs) ≡ after =
              ground (arith, f, c, e) in
            subst (λ x. IsSingle x.runs) k
              (taken_over-IsSingle now scope owner db.runs
                (all-Placed scope db.runs row (p.keyed scope.user_id scope.request_id) f s) p)
      ]
    ]

retained-IsSingle :
    (now : ℕ) (scope : Scope) (rs : List Run) → IsSingle rs → IsSingle (retained now scope rs)
retained-IsSingle now scope rs h =
    let p = λ (r : Run). not (r.user_id == scope.user_id && ltb r.retention_until now) in
    record {
      keyed = λ u q. omega (arith, h.keyed u q, count-keep (has_key u q) p rs);
      single = λ u s. omega (arith, h.single u s, count-keep (runs_in u s) p rs);
    }

appended-IsPending :
    (now : ℕ) (scope : Scope) (h owner : String) (rs : List Run)
    → any (is_request scope) rs ≡ false
    → IsSingle rs
    → IsPending scope (rs ++ new_run now scope h owner ∷ [])
appended-IsPending now scope h owner rs n k =
    let row = new_run now scope h owner in
    record {
      keyed = λ u q. ground (
        arith,
        k.keyed u q,
        count-append (has_key u q) rs row,
        count-any (is_request scope) rs n,
        eq_iff scope.user_id u,
        eq_iff scope.request_id q,
      );
      others = λ u s b. ground (
        arith,
        k.single u s,
        b,
        count-append (runs_in u s) rs row,
        eq_iff scope.user_id u,
        eq_iff scope.session_key s,
        eq_iff u scope.user_id,
        eq_iff s scope.session_key,
      );
    }

pub begin-IsSingle :
    (now : ℕ) (scope : Scope) (h owner : String) (db : Db) (b : Begun) (after : Db)
    → IsSingle db.runs
    → begin now scope h owner db ≡ ok (b, after)
    → IsSingle after.runs
unfolding begin
begin-IsSingle now scope h owner db b after k e =
    let rs = retained now scope db.runs in
    let kr = retained-IsSingle now scope db.runs k in
    elim (Bool-cases (any (is_open scope) db.sessions && not (any (is_request scope) rs))) [
      | inr x ↦
          begin_run-IsSingle now scope h owner (with_runs db rs) b after
            (record { keyed = kr.keyed; others = λ u s _. kr.single u s }) (λ _ _ _. kr) (rw x at e)
      | inl x ↦
          let n : any (is_request scope) rs ≡ false = ground (arith, x) in
          begin_run-IsSingle now scope h owner (with_runs db (rs ++ new_run now scope h owner ∷ []))
            b after (appended-IsPending now scope h owner rs n kr)
            (λ row f c.
              let found =
                find_by-append (is_request scope) rs (new_run now scope h owner)
                  (find_by-none (is_request scope) rs n)
                  (ground (
                    arith,
                    eq_iff scope.user_id scope.user_id,
                    eq_iff scope.request_id scope.request_id,
                  )) in
              let same : new_run now scope h owner ≡ row = ground (arith, found, f) in
              absurd (ground (arith, same, c)))
            (rw x at e)
    ]
