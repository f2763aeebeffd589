-- ===== src/Runs/Receipts.antt =====
-- What a change that agent_runtime/store.py has applied leaves behind.
use hommey.Runs.Rows.{Db, Receipt, Scope, Trip, TripContext, TripRecord, is_request}
use hommey.Runs.Trips.{
  Change, commit, current_trip, give_receipt, preference_columns, trip_version, write_preferences,
  write_trip, upsert_trip, is_ended, of_scope, new_context, put_trip, replace_context,
  upsert_record, written_trip, is_cancel, is_empty, is_update, set_default, trip_of,
}
use hommey.Prelude.{
  Bool-cases, Dict, List, Option, Option-cases, Result-cases, String, [], ap, arith, elem, eq_iff,
  find_by, find_by-append, find_by-holds, find_by-update_where, if◌then◌else◌, inl, inr, insert,
  insert-same, is_none, lookup, lookup-insert, none, ok, or_else, refl, some, sym, update_where, ℕ,
  ◌&&◌, ◌∙◌, ◌∷◌, ◌≡◌, String_eq, ℕ_eq,
}

write_preferences-kept :
    (now : ℕ) (user : String) (ps : Dict String) (db after : Db)
    → write_preferences now user ps db ≡ ok after
    → (after.runs ≡ db.runs) × (after.trips ≡ db.trips)
unfolding write_preferences
write_preferences-kept now user [] db after e = (ground (arith, e), ground (arith, e))
write_preferences-kept now user ((key, value) ∷ ps) db after e =
    elim (Bool-cases (elem key preference_columns)) [
      | inl b ↦ write_preferences-kept now user ps _ after (rw b at e)
      | inr b ↦ ground (arith, b, e)
    ]

put_trip-found :
    (o : Option TripContext) (now : ℕ) (scope : Scope) (trip : Trip) (ts : List TripContext)
    → find_by (of_scope scope) ts ≡ o
    → (t : TripContext) × (find_by (of_scope scope) (put_trip o now scope trip ts) ≡ some t)
      × (t.status ≡ or_else (lookup "status" trip) "")
      × (t.context_data ≡ trip)
put_trip-found none now scope trip ts e = (
  new_context scope trip,
  find_by-append (of_scope scope) ts (new_context scope trip) e (
      ground (arith, eq_iff scope.user_id scope.user_id, eq_iff scope.session_id scope.session_id)),
  refl,
  refl,
)
put_trip-found (some t) now scope trip ts e =
    let k = find_by-holds (of_scope scope) ts t e in
    let found : find_by (of_scope scope) (put_trip (some t) now scope trip ts)
        ≡ some (if of_scope scope t then replace_context now scope trip t else t) =
      find_by-update_where (of_scope scope) (of_scope scope) (replace_context now scope trip) ts t
        (λ x. refl) e in
    let updated = found ∙ ap (λ b. some (if b then replace_context now scope trip t else t)) k in
    (replace_context now scope trip t, updated, refl, refl)

-- The session's trip after an upsert of one that carries a status.
upsert_trip-current :
    (now : ℕ) (scope : Scope) (trip : Trip) (status : String) (db : Db) (records : List TripRecord)
    → lookup "status" trip ≡ some status
    → current_trip scope
        (record db { trips = upsert_trip now scope trip db.trips; records = records })
      ≡ (if is_ended status then [] else trip)
unfolding current_trip lookup
upsert_trip-current now scope [] status db records e = cc
upsert_trip-current now scope (p ∷ trip) status db records e =
    let (t, f, st, cd) =
      put_trip-found (find_by (of_scope scope) db.trips) now scope (p ∷ trip) db.trips refl in
    let same = insert-same "status" status (p ∷ trip) e in
    let st' : t.status ≡ status = st ∙ ap (λ o. or_else o "") e in
    rw (f, st', cd, same)
      (elim (Bool-cases (is_ended status)) [
        | inl b ↦ ground (arith, b)
        | inr b ↦ ground (arith, b)
      ])

active-status :
    (fresh : String) (d : Trip)
    → lookup "status" (set_default "_trip_id" fresh (insert "status" "active" d)) ≡ some "active"
active-status fresh d =
    let k = lookup-insert "status" "status" "active" d in
    elim (Bool-cases (is_none (lookup "_trip_id" (insert "status" "active" d)))) [
      | inl b ↦ rw b (lookup-insert "_trip_id" "status" fresh (insert "status" "active" d) ∙ k)
      | inr b ↦ rw b k
    ]

written_trip-status :
    (fresh : String) (c : Change) (current : Trip)
    → lookup "status" (written_trip fresh c current)
      ≡ some (if is_cancel c.action then "cancelled" else "active")
unfolding written_trip
written_trip-status fresh c current = elim (Bool-cases (is_cancel c.action)) [
  | inl b ↦ rw b (lookup-insert "status" "status" "cancelled" _)
  | inr b ↦ rw b (active-status fresh _)
]

-- The trip of the session after a write is the one that the receipt shows.
write_trip-current :
    (now : ℕ) (fresh : String) (scope : Scope) (c : Change) (db : Db) (w : Trip × Db)
    → write_trip now fresh scope c (current_trip scope db) db ≡ ok w
    → (w.1.runs ≡ db.runs) × (current_trip scope w.1 ≡ w.0)
unfolding write_trip
write_trip-current now fresh scope c db w e =
    let trip = written_trip fresh c (current_trip scope db) in
    elim (Bool-cases (is_empty c.trip && is_update c.action)) [
      | inl b ↦ (
        ground (arith, b, e),
        (let d : w.1 ≡ db = ground (arith, b, e) in
            let v : w.0 ≡ current_trip scope db = ground (arith, b, e) in
            ap (current_trip scope) d ∙ sym v),
      )
      | inr b ↦ elim (Option-cases (upsert_record scope c.action trip db.records)) [
        | inl n ↦ ground (arith, b, n, e)
        | inr (records, n) ↦
            let d : w.1
                ≡ record db { trips = upsert_trip now scope trip db.trips; records = records } =
              ground (arith, b, n, e) in
            let v : w.0 ≡ (if is_cancel c.action then [] else trip) = ground (arith, b, n, e) in
            let k =
              upsert_trip-current now scope trip _ db records
                (written_trip-status fresh c (current_trip scope db)) in
            (
              ap (λ x. x.runs) d,
              ap (current_trip scope) d ∙ k ∙ elim (Bool-cases (is_cancel c.action)) [
                | inl a ↦ rw a (sym (rw a at v))
                | inr a ↦ rw a (sym (rw a at v))
              ],
            )
      ]
    ]

current_trip-cong :
    (scope : Scope) (a b : Db) → a.trips ≡ b.trips → current_trip scope a ≡ current_trip scope b
unfolding current_trip
current_trip-cong scope a b h = ap (λ ts. trip_of (find_by (of_scope scope) ts)) h

pub commit-lem :
    (digest : Trip → ℕ) (now : ℕ) (fresh : String) (scope : Scope) (c : Change) (db : Db)
    (receipt : Receipt) (after : Db)
    → commit digest now fresh scope c db ≡ ok (receipt, after)
    → (c.expected_version ≡ trip_version digest (current_trip scope db))
      × (receipt.version ≡ trip_version digest (current_trip scope after))
      × (after.runs ≡ (give_receipt now scope c.operation receipt db).runs)
unfolding commit
commit-lem digest now fresh scope c db receipt after e =
    elim (Result-cases (write_trip now fresh scope c (current_trip scope db) db)) [
      | inl (x, f) ↦ ground (arith, f, e)
      | inr (w, f) ↦ elim (Result-cases (write_preferences now scope.user_id c.preferences w.1)) [
        | inl (x, g) ↦ ground (arith, f, g, e)
        | inr (d, g) ↦
            let fit : c.expected_version ≡ trip_version digest (current_trip scope db) =
              ground (arith, f, g, e) in
            let version : receipt.version ≡ trip_version digest w.0 = ground (arith, f, g, e) in
            let done : after ≡ give_receipt now scope c.operation receipt d =
              ground (arith, f, g, e) in
            let (runs, trips) = write_preferences-kept now scope.user_id c.preferences w.1 d g in
            let (runs', shown) = write_trip-current now fresh scope c db w f in
            (
              fit,
              version
                  ∙ ap (trip_version digest) (
                      sym shown
                      ∙ current_trip-cong scope w.1 after (sym (ap (λ x. x.trips) done ∙ trips))),
              ap (λ x. x.runs) done
                  ∙ ap
                      (update_where (is_request scope) (λ r. record r {
                        mutations = insert c.operation receipt r.mutations;
                        updated_at = now;
                      }))
                      (runs ∙ runs'),
            )
      ]
    ]
