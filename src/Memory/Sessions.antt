-- ===== src/Memory/Sessions.antt =====
-- context/memory_repository.py: the methods of `PostgresMemoryRepository` on sessions. Each is one
-- transaction, `now` is its `NOW()`, and a fresh UUID is an argument.
use hommey.Memory.Rows.{
  Db, MemoryError, SessionRecord, active, closed, duplicate_key, is_active, session_not_found,
}
use hommey.Prelude.{
  Bool, List, Option, Result, String, [], any, err, find_by, if◌then◌else◌, keep, leb, max, none,
  not, ok, some, true, update_where, ℕ, ◌&&◌, ◌++◌, ◌+◌, ◌==◌, ◌||◌, ◌∷◌, String_eq, ℕ_eq,
}

abbrev pub is_session : String → SessionRecord → Bool
is_session sid s = s.session_id == sid

abbrev pub is_users : String → SessionRecord → Bool
is_users user_id s = s.user_id == user_id

-- WHERE user_id = … AND session_id = …
abbrev pub is_owned : String → String → SessionRecord → Bool
is_owned user_id sid s = s.user_id == user_id && s.session_id == sid

abbrev pub is_open : String → SessionRecord → Bool
is_open user_id s = s.user_id == user_id && is_active s.status

abbrev pub with_sessions : Db → List SessionRecord → Db
with_sessions db ss = record db { sessions = ss }

abbrev pub closed_for : ℕ → String → SessionRecord → SessionRecord
closed_for now reason s = record s {
  status = closed;
  closed_at = some now;
  close_reason = some reason;
}

abbrev pub reopened : SessionRecord → SessionRecord
reopened s = record s { status = active; closed_at = none; close_reason = none }

abbrev pub touched : ℕ → SessionRecord → SessionRecord
touched now s = record s { last_active_at = now }

abbrev pub again : ℕ → SessionRecord → SessionRecord
again now s = touched now (reopened s)

-- The columns that INSERT does not name have their defaults.
abbrev pub new_session : ℕ → String → String → SessionRecord
new_session now session_id user_id = record {
  session_id = session_id;
  user_id = user_id;
  status = active;
  started_at = now;
  last_active_at = now;
  closed_at = none;
  close_reason = none;
  message_count = 0;
  last_sequence = 0;
  summary_watermark = 0;
}

unfoldable pub insert_session : ℕ → String → String → Db → Result MemoryError (SessionRecord × Db)
insert_session now session_id user_id db =
    let s = new_session now session_id user_id in
    if any (is_session session_id) db.sessions
    then err duplicate_key
    else ok (s, with_sessions db (db.sessions ++ s ∷ []))

-- ORDER BY last_active_at DESC LIMIT 1, the first of equal ones
abbrev pub latest : List SessionRecord → Option SessionRecord
latest [] = none
latest (s ∷ ss) = elim (latest ss) [
  | none ↦ some s
  | some t ↦ some (if leb t.last_active_at s.last_active_at then s else t)
]

-- The row that an UPDATE … RETURNING of one session gives.
abbrev pub returned : (SessionRecord → SessionRecord) → SessionRecord → Db → SessionRecord × Db
returned f s db = (f s, with_sessions db (update_where (is_session s.session_id) f db.sessions))

unfoldable pub get_or_create_session :
    ℕ → String → String → ℕ → Db → Result MemoryError (SessionRecord × Db)
unfolding insert_session
get_or_create_session now fresh user_id idle_timeout_sec db =
    let timeout = max idle_timeout_sec 1 in
    elim (latest (keep (is_open user_id) db.sessions)) [
      | none ↦ insert_session now fresh user_id db
      | some s ↦
          if leb now (s.last_active_at + timeout)
          then ok (returned (touched now) s db)
          else insert_session now fresh user_id (returned (closed_for now "idle") s db).1
    ]

unfoldable pub rotate_session :
    ℕ → String → String → String → Db → Result MemoryError (SessionRecord × Db)
unfolding insert_session
rotate_session now fresh user_id reason db =
    insert_session now fresh user_id
      (with_sessions db (update_where (is_open user_id) (closed_for now reason) db.sessions))

unfoldable pub create_session : ℕ → String → String → Db → Result MemoryError (SessionRecord × Db)
unfolding insert_session
create_session now fresh user_id db = insert_session now fresh user_id db

-- close_reason IS NULL OR close_reason NOT IN ('deleted', 'cleared')
abbrev pub is_kept_reason : Option String → Bool
is_kept_reason none = true
is_kept_reason (some reason) = not (reason == "deleted" || reason == "cleared")

abbrev pub is_resumable : String → String → SessionRecord → Bool
is_resumable user_id sid s = is_owned user_id sid s && is_kept_reason s.close_reason

unfoldable pub resume_session : String → String → Db → Result MemoryError (SessionRecord × Db)
resume_session user_id sid db = elim (find_by (is_resumable user_id sid) db.sessions) [
  | none ↦ err session_not_found
  | some s ↦
      ok (
        reopened s,
        with_sessions db (update_where (is_resumable user_id sid) reopened db.sessions),
      )
]

abbrev pub is_other_open : String → String → SessionRecord → Bool
is_other_open user_id sid s = is_open user_id s && not (s.session_id == sid)

unfoldable pub activate_session : ℕ → String → String → Db → Result MemoryError (SessionRecord × Db)
activate_session now user_id sid db = elim (find_by (is_owned user_id sid) db.sessions) [
  | none ↦ err session_not_found
  | some s ↦
      let switched =
        update_where (is_other_open user_id sid) (closed_for now "switched") db.sessions in
      ok (again now s, with_sessions db (update_where (is_owned user_id sid) (again now) switched))
]

abbrev pub is_open_session : String → String → SessionRecord → Bool
is_open_session user_id sid s = is_owned user_id sid s && is_active s.status

unfoldable pub close_session : ℕ → String → String → String → Db → Db
close_session now user_id sid reason db =
    with_sessions db
      (update_where (is_open_session user_id sid) (closed_for now reason) db.sessions)

unfoldable pub get_session : String → String → Db → Option SessionRecord
get_session user_id sid db = find_by (is_owned user_id sid) db.sessions
