-- ===== src/Runs/Trips.antt =====
-- agent_runtime/store.py: `_apply`, which writes a trip, preferences and a receipt in one transaction.
use hommey.Runs.Rows.{
  Db, Receipt, Scope, StoreError, Trip, TripContext, TripRecord, is_key, is_request, is_running,
  record_mismatch, runtime_stopped, trip_changed, unknown_preference,
}
use hommey.Runs.Turns.{with_runs}
use hommey.Prelude.{
  Bool, Dict, List, Option, Result, String, [], any, elem, erase, err, false, find_by,
  if◌then◌else◌, insert, is_none, lookup, none, not, ok, or_else, require, some, true, update_where,
  ℕ, ◌&&◌, ◌++◌, ◌==◌, ◌>>=◌, ◌>>◌, ◌||◌, ◌∷◌, String_eq, ℕ_eq,
}

pub data Action : Type 0 where
  update new cancel : Action

-- The column sets of context/preference_schema.py.
abbrev pub preference_columns : List String
preference_columns =
    "home_location" ∷ "transportation_preference" ∷ "seat_preference" ∷ "meal_preference"
    ∷ "budget_level" ∷ "hotel_brands" ∷ "airlines" ∷ []

-- What a model asks to change, with the version of the trip that it has read.
pub record Change : Type 0 where
  pub operation : String
  pub expected_version : ℕ
  pub trip : Trip
  pub preferences : Dict String
  pub action : Action

-- `trip_version`, by the digest of the JSON text
abbrev pub trip_version : (Trip → ℕ) → Trip → ℕ
trip_version digest trip = digest (erase "updated_at" trip)

-- {**d, **e}
abbrev pub merge {ℓ} : {V : Type ℓ} → Dict V → Dict V → Dict V
merge d [] = d
merge d ((k, v) ∷ e) = merge (insert k v d) e

abbrev pub is_empty {ℓ} : {A : Type ℓ} → List A → Bool
is_empty [] = true
is_empty (x ∷ xs) = false

-- WHERE user_id AND session_id
abbrev pub of_scope : Scope → TripContext → Bool
of_scope scope t = t.user_id == scope.user_id && t.session_id == scope.session_id

abbrev pub is_ended : String → Bool
is_ended status = status == "completed" || status == "cancelled"

abbrev pub trip_of : Option TripContext → Trip
trip_of none = []
trip_of (some row) =
    if is_ended row.status || is_empty row.context_data
    then []
    else insert "status" row.status row.context_data

-- The trip that the session works on: none once it is completed or cancelled.
unfoldable pub current_trip : Scope → Db → Trip
current_trip scope db = trip_of (find_by (of_scope scope) db.trips)

abbrev pub set_default : String → String → Trip → Trip
set_default k v d = if is_none (lookup k d) then insert k v d else d

abbrev pub is_cancel : Action → Bool
is_cancel cancel = true
is_cancel _ = false

abbrev pub is_update : Action → Bool
is_update update = true
is_update _ = false

-- The trip that is written; `fresh` is the new UUID.
unfoldable pub written_trip : String → Change → Trip → Trip
written_trip fresh c current =
    let base : Trip = elim c.action [ new ↦ [] | _ ↦ current ] in
    let active = set_default "_trip_id" fresh (insert "status" "active" (merge base c.trip)) in
    if is_cancel c.action then insert "status" "cancelled" active else active

abbrev pub new_context : Scope → Trip → TripContext
new_context scope trip = record {
  user_id = scope.user_id;
  session_id = scope.session_id;
  status = or_else (lookup "status" trip) "";
  context_data = trip;
  completed_at = none;
}

abbrev pub replace_context : ℕ → Scope → Trip → TripContext → TripContext
replace_context now scope trip t =
    let status = or_else (lookup "status" trip) "" in
    record t {
      status = status;
      context_data = trip;
      completed_at = (if status == "cancelled" then some now else none);
    }

abbrev pub put_trip : Option TripContext → ℕ → Scope → Trip → List TripContext → List TripContext
put_trip none now scope trip ts = ts ++ new_context scope trip ∷ []
put_trip (some _) now scope trip ts =
    update_where (of_scope scope) (replace_context now scope trip) ts

-- INSERT … ON CONFLICT (user_id, session_id) DO UPDATE
abbrev pub upsert_trip : ℕ → Scope → Trip → List TripContext → List TripContext
upsert_trip now scope trip ts = put_trip (find_by (of_scope scope) ts) now scope trip ts

-- INSERT … ON CONFLICT (trip_id) DO UPDATE … WHERE user_id AND session_id; `none` for no row.
unfoldable pub upsert_record : Scope → Action → Trip → List TripRecord → Option (List TripRecord)
upsert_record scope action trip rs =
    let id = or_else (lookup "_trip_id" trip) "" in
    let state = if is_cancel action then "cancelled" else "planned" in
    if any (λ r. r.trip_id == id) rs
    then (if any
          (λ r. r.trip_id == id && r.user_id == scope.user_id && r.session_id == scope.session_key)
          rs
        then some (
            update_where (λ r. r.trip_id == id)
              (λ r. record r { record_state = state; context_data = trip }) rs)
        else none)
    else some (
        rs
        ++ record {
          trip_id = id;
          user_id = scope.user_id;
          session_id = scope.session_key;
          record_state = state;
          context_data = trip;
        }
          ∷ [])

-- INSERT … ON CONFLICT DO UPDATE of one preference
abbrev upsert_preference :
    ℕ → String → String → String → Dict (Dict (String × ℕ)) → Dict (Dict (String × ℕ))
upsert_preference now user key value table =
    insert user (insert key (value, now) (or_else (lookup user table) [])) table

-- The loop on `preferences`; an unknown key is a `KeyError`.
unfoldable pub write_preferences : ℕ → String → Dict String → Db → Result StoreError Db
write_preferences now user [] db = ok db
write_preferences now user ((key, value) ∷ ps) db =
    let next = write_preferences now user ps (record db {
      travel_preferences = upsert_preference now user key value db.travel_preferences;
      user_preferences = upsert_preference now user key value db.user_preferences;
    }) in
    if elem key preference_columns then next else err unknown_preference

-- The trip as the two trip tables take it, and what the receipt shows of it.
unfoldable pub write_trip : ℕ → String → Scope → Change → Trip → Db → Result StoreError (Trip × Db)
unfolding written_trip upsert_record
write_trip now fresh scope c current db =
    if is_empty c.trip && is_update c.action
    then ok (current, db)
    else (let trip = written_trip fresh c current in
        elim (upsert_record scope c.action trip db.records) [
          | none ↦ err record_mismatch
          | some records ↦ ok (
            if is_cancel c.action then [] else trip,
            record db { trips = upsert_trip now scope trip db.trips; records = records },
          )
        ])

abbrev pub give_receipt : ℕ → Scope → String → Receipt → Db → Db
give_receipt now scope operation receipt db = with_runs db (
    update_where (is_request scope)
      (λ r. record r { mutations = insert operation receipt r.mutations; updated_at = now })
      db.runs)

-- The business writes of `_apply` and its receipt.
unfoldable pub commit :
    (Trip → ℕ) → ℕ → String → Scope → Change → Db → Result StoreError (Receipt × Db)
unfolding write_trip write_preferences current_trip
commit digest now fresh scope c db =
    let current = current_trip scope db in
    require (c.expected_version == trip_version digest current) trip_changed
    >> (write_trip now fresh scope c current db >>= λ w.
        write_preferences now scope.user_id c.preferences w.1 >>= λ db'.
        let receipt : Receipt = record {
          trip = w.0;
          version = trip_version digest w.0;
          preferences_updated = not (is_empty c.preferences);
        } in
        ok (receipt, give_receipt now scope c.operation receipt db'))

-- `_apply`
unfoldable pub apply :
    (Trip → ℕ) → ℕ → String → Scope → String → Change → Db → Result StoreError (Receipt × Db)
unfolding commit
apply digest now fresh scope owner c db = elim (find_by (is_key scope) db.runs) [
  | none ↦ err runtime_stopped
  | some run ↦
      if not (run.owner == owner) || run.cancel_requested || not (is_running run.status)
      then err runtime_stopped
      else (elim (lookup c.operation run.mutations) [
        | some receipt ↦ ok (receipt, db)
        | none ↦ commit digest now fresh scope c db
      ])
]
