-- ===== src/Runs/Replays.antt =====
-- agent_runtime/store.py: a change that is sent again, and the versions of a trip.
use hommey.Runs.Rows.{Db, Receipt, Run, Scope, Trip, is_key, is_request, is_running}
use hommey.Runs.Trips.{Change, apply, commit, current_trip, trip_version}
use hommey.Runs.Receipts.{commit-lem}
use hommey.Prelude.{
  Bool-cases, Option-cases, String, any, any-find_by, ap, arith, eq_iff, false, find_by,
  find_by-holds, find_by-update_where, if◌then◌else◌, inl, inr, insert, is_some, lookup,
  lookup-insert, none, not, ok, refl, some, subst, true, ℕ, ◌&&◌, ◌==◌, ◌||◌, ◌∙◌, ◌≡◌, ◌⊎◌,
  String_eq, ℕ_eq,
}

-- How a change succeeds: the run of the scope is live, and its receipt is given out again or made.
pub apply-cases :
    (digest : Trip → ℕ) (now : ℕ) (fresh : String) (scope : Scope) (owner : String) (c : Change)
    (db : Db) (receipt : Receipt) (after : Db)
    → apply digest now fresh scope owner c db ≡ ok (receipt, after)
    → (run : Run) × (find_by (is_key scope) db.runs ≡ some run)
      × ((not (run.owner == owner) || run.cancel_requested || not (is_running run.status)) ≡ false)
      × (((lookup c.operation run.mutations ≡ some receipt) × (db ≡ after))
          ⊎ ((lookup c.operation run.mutations ≡ none)
              × (commit digest now fresh scope c db ≡ ok (receipt, after))))
unfolding apply
apply-cases digest now fresh scope owner c db receipt after e =
    elim (Option-cases (find_by (is_key scope) db.runs)) [
      | inl n ↦ ground (arith, n, e)
      | inr (run, f) ↦
          elim (Bool-cases
            (not (run.owner == owner) || run.cancel_requested || not (is_running run.status))) [
              | inl g ↦ ground (arith, f, g, e)
              | inr g ↦ elim (Option-cases (lookup c.operation run.mutations)) [
                | inl n ↦ (run, f, g, inr (n, ground (arith, f, g, n, e)))
                | inr (r, n) ↦
                    (run, f, g, inl (ground (arith, f, g, n, e), ground (arith, f, g, n, e)))
              ]
            ]
    ]

-- A change that was applied and is sent again under its operation id, at a later time and whatever
-- else it carries then, gives the same receipt and changes nothing.
pub apply_replays :
    (digest : Trip → ℕ) (now later : ℕ) (fresh fresh' : String) (scope : Scope) (owner : String)
    (c again : Change) (db : Db) (receipt : Receipt) (after : Db)
    → apply digest now fresh scope owner c db ≡ ok (receipt, after)
    → again.operation ≡ c.operation
    → apply digest later fresh' scope owner again after ≡ ok (receipt, after)
unfolding apply
apply_replays digest now later fresh fresh' scope owner c again db receipt after e same =
    let (run, f, g, how) = apply-cases digest now fresh scope owner c db receipt after e in
    elim how [
      | inl (l, k) ↦
          let found : find_by (is_key scope) after.runs ≡ some run =
            subst (λ d. find_by (is_key scope) d.runs ≡ some run) k f in
          let kept : lookup again.operation run.mutations ≡ some receipt =
            ap (λ o. lookup o run.mutations) same ∙ l in
          rw (found, g, kept, apply)
      | inr (l, k) ↦
          let mark = λ (r : Run). record r {
            mutations = insert c.operation receipt r.mutations;
            updated_at = now;
          } in
          let (v, w, runs) = commit-lem digest now fresh scope c db receipt after k in
          let key = find_by-holds (is_key scope) db.runs run f in
          let req : is_request scope run ≡ true = ground (arith, key) in
          let found : find_by (is_key scope) after.runs ≡ some (mark run) =
            ap (find_by (is_key scope)) runs
            ∙ find_by-update_where (is_key scope) (is_request scope) mark db.runs run (λ x. refl) f
            ∙ ap (λ b. some (if b then mark run else run)) req in
          let kept : lookup again.operation (insert c.operation receipt run.mutations)
              ≡ some receipt =
            ap (λ o. lookup o (insert c.operation receipt run.mutations)) same
            ∙ lookup-insert c.operation c.operation receipt run.mutations
            ∙ ground (arith, eq_iff c.operation c.operation) in
          rw (found, g, kept, apply)
    ]

-- A change under a new operation id that is applied was made for the current version of the trip,
-- and its receipt tells the version that the trip has after it.
pub apply_versions :
    (digest : Trip → ℕ) (now : ℕ) (fresh : String) (scope : Scope) (owner : String) (c : Change)
    (db : Db) (receipt : Receipt) (after : Db)
    → any (λ r. is_key scope r && is_some (lookup c.operation r.mutations)) db.runs ≡ false
    → apply digest now fresh scope owner c db ≡ ok (receipt, after)
    → (c.expected_version ≡ trip_version digest (current_trip scope db))
      × (receipt.version ≡ trip_version digest (current_trip scope after))
apply_versions digest now fresh scope owner c db receipt after unseen e =
    let (run, f, g, how) = apply-cases digest now fresh scope owner c db receipt after e in
    elim how [
      | inl (l, k) ↦
          let key = find_by-holds (is_key scope) db.runs run f in
          let t =
            any-find_by (is_key scope)
              (λ r. is_key scope r && is_some (lookup c.operation r.mutations)) db.runs run f
              (ground (arith, key, l)) in
          absurd (ground (arith, t, unseen))
      | inr (l, k) ↦
          let (v, w, runs) = commit-lem digest now fresh scope c db receipt after k in (v, w)
    ]
