-- ===== src/Memory/Reach.antt =====
-- context/memory_repository.py over any run of its transactions, by any users.
use hommey.Memory.Rows.{Db}
use hommey.Memory.Sessions.{
  activate_session, again, close_session, closed_for, create_session, get_or_create_session,
  insert_session, is_open, is_other_open, is_owned, is_resumable, is_session, latest, new_session,
  reopened, resume_session, rotate_session, touched, is_open_session, is_users,
}
use hommey.Memory.Messages.{Draft, append_message}
use hommey.Memory.Reading.{
  clear_chat_history, delete_chat_session, update_message_documents, cleared_for,
}
use hommey.Memory.Order.{KeepsNumbers, snoc-IsOrdered, update-IsOrdered, later-IsOrdered}
use hommey.Memory.Appending.{AreOrdered, append-AreOrdered, rows_of}
use hommey.Memory.Kept.{filled-IsOrdered, keep-IsOrdered}
use hommey.Prelude.{
  Bool-cases, List, Option, Option-cases, String, [], any, arith, find_by, inl, inr, is_some, keep,
  leb, max, not, refl, ℕ, ◌+◌, ◌||◌, ◌∷◌,
}

pub data Call : Type 0 where
  gets_or_creates : String → String → ℕ → Call
  rotates : String → String → String → Call
  creates : String → String → Call
  resumes activates : String → String → Call
  closes : String → String → String → Call
  appends : Draft → Call
  repairs : String → String → Option String → Option String → Call
  deletes : String → String → Call
  clears : String → Call

module _ (redact : String → String) (days : ℕ) where
  abbrev pub run_call : ℕ → Call → Db → Db
  run_call now (gets_or_creates fresh user timeout) db =
      rows_of db (get_or_create_session now fresh user timeout db)
  run_call now (rotates fresh user reason) db = rows_of db (rotate_session now fresh user reason db)
  run_call now (creates fresh user) db = rows_of db (create_session now fresh user db)
  run_call now (resumes user sid) db = rows_of db (resume_session user sid db)
  run_call now (activates user sid) db = rows_of db (activate_session now user sid db)
  run_call now (closes user sid reason) db = close_session now user sid reason db
  run_call now (appends d) db = rows_of db (append_message redact days now d db)
  run_call now (repairs user id a p) db = (update_message_documents user id a p db).1
  run_call now (deletes user sid) db = delete_chat_session now user sid db
  run_call now (clears user) db = clear_chat_history now user db

  -- Each call comes some seconds after the one before.
  abbrev pub run_calls : ℕ → List (ℕ × Call) → Db → ℕ × Db
  run_calls now [] db = (now, db)
  run_calls now (c ∷ cs) db = run_calls (now + c.0) cs (run_call (now + c.0) c.1 db)

closed-KeepsNumbers : (now : ℕ) (reason : String) → KeepsNumbers (closed_for now reason)
closed-KeepsNumbers now reason = record {
  same_id = λ s. refl;
  same_user = λ s. refl;
  same_last = λ s. refl;
  same_count = λ s. refl;
}

insert-AreOrdered :
    (now : ℕ) (fresh user : String) (before db : Db)
    → AreOrdered now before
    → AreOrdered now db
    → AreOrdered now (rows_of before (insert_session now fresh user db))
unfolding insert_session
insert-AreOrdered now fresh user before db o h =
    elim (Bool-cases (any (is_session fresh) db.sessions)) [
      | inl b ↦ rw b o
      | inr b ↦ rw b (snoc-IsOrdered now (new_session now fresh user) db.sessions db.messages b h)
    ]

get_or_create-AreOrdered :
    (now : ℕ) (fresh user : String) (timeout : ℕ) (db : Db)
    → AreOrdered now db
    → AreOrdered now (rows_of db (get_or_create_session now fresh user timeout db))
unfolding get_or_create_session insert_session
get_or_create-AreOrdered now fresh user timeout db h =
    elim (Option-cases (latest (keep (is_open user) db.sessions))) [
      | inl e ↦ rw (rows_of, e) (insert-AreOrdered now fresh user db db h h)
      | inr (s, e) ↦ elim (Bool-cases (leb now (s.last_active_at + max timeout 1))) [
        | inl b ↦
            rw (rows_of, e, b)
              (update-IsOrdered now (is_session s.session_id) (touched now) _ _
                (record {
                  same_id = λ s. refl;
                  same_user = λ s. refl;
                  same_last = λ s. refl;
                  same_count = λ s. refl;
                })
                h)
        | inr b ↦
            rw (rows_of, e, b)
              (insert-AreOrdered now fresh user db _ h (
                update-IsOrdered now (is_session s.session_id) (closed_for now "idle") _ _
                  (closed-KeepsNumbers now "idle") h))
      ]
    ]

resume-AreOrdered :
    (now : ℕ) (user sid : String) (db : Db)
    → AreOrdered now db
    → AreOrdered now (rows_of db (resume_session user sid db))
unfolding resume_session
resume-AreOrdered now user sid db h =
    elim (Option-cases (find_by (is_resumable user sid) db.sessions)) [
      | inl e ↦ rw (rows_of, e) h
      | inr (s, e) ↦
          rw (rows_of, e)
            (update-IsOrdered now (is_resumable user sid) reopened _ _
              (record {
                same_id = λ s. refl;
                same_user = λ s. refl;
                same_last = λ s. refl;
                same_count = λ s. refl;
              })
              h)
    ]

activate-AreOrdered :
    (now : ℕ) (user sid : String) (db : Db)
    → AreOrdered now db
    → AreOrdered now (rows_of db (activate_session now user sid db))
unfolding activate_session
activate-AreOrdered now user sid db h =
    elim (Option-cases (find_by (is_owned user sid) db.sessions)) [
      | inl e ↦ rw (rows_of, e) h
      | inr (s, e) ↦
          rw (rows_of, e)
            (update-IsOrdered now (is_owned user sid) (again now) _ _
              (record {
                same_id = λ s. refl;
                same_user = λ s. refl;
                same_last = λ s. refl;
                same_count = λ s. refl;
              })
              (update-IsOrdered now (is_other_open user sid) (closed_for now "switched") _ _
                (closed-KeepsNumbers now "switched") h))
    ]

module _ (redact : String → String) (days : ℕ) where
  pub call-AreOrdered :
      (now : ℕ) (c : Call) (db : Db)
      → AreOrdered now db
      → AreOrdered now (run_call redact days now c db)
  unfolding rotate_session create_session close_session update_message_documents delete_chat_session
      clear_chat_history
  call-AreOrdered now (gets_or_creates fresh user timeout) db h =
      get_or_create-AreOrdered now fresh user timeout db h
  call-AreOrdered now (rotates fresh user reason) db h = insert-AreOrdered now fresh user db _ h (
      update-IsOrdered now (is_open user) (closed_for now reason) _ _
        (closed-KeepsNumbers now reason) h)
  call-AreOrdered now (creates fresh user) db h = insert-AreOrdered now fresh user db db h h
  call-AreOrdered now (resumes user sid) db h = resume-AreOrdered now user sid db h
  call-AreOrdered now (activates user sid) db h = activate-AreOrdered now user sid db h
  call-AreOrdered now (closes user sid reason) db h =
      update-IsOrdered now (is_open_session user sid) (closed_for now reason) _ _
        (closed-KeepsNumbers now reason) h
  call-AreOrdered now (appends d) db h = append-AreOrdered redact days now d db h
  call-AreOrdered now (repairs user id a p) db h =
      elim (Bool-cases (not (is_some a || is_some p))) [
        | inl b ↦ rw (run_call, b) h
        | inr b ↦ rw (run_call, b) (filled-IsOrdered now _ a p db.sessions db.messages h)
      ]
  call-AreOrdered now (deletes user sid) db h =
      update-IsOrdered now (is_owned user sid) (closed_for now "deleted") _ _
        (closed-KeepsNumbers now "deleted") (keep-IsOrdered now _ _ _ h)
  call-AreOrdered now (clears user) db h =
      update-IsOrdered now (is_users user) (cleared_for now) _ _
        (record {
          same_id = λ s. refl;
          same_user = λ s. refl;
          same_last = λ s. refl;
          same_count = λ s. refl;
        })
        (keep-IsOrdered now _ _ _ h)

  -- Whatever sessions are opened, rotated, resumed, activated and closed, and whatever messages are
  -- appended, repaired, deleted and cleared, by any users and with any errors: session ids stay
  -- distinct, a later message of a session has a larger number and no earlier time, no two messages
  -- share the user, the request and the role, and no session has a number past its `last_sequence`
  -- or more messages than its `message_count`.
  pub calls-AreOrdered :
      (cs : List (ℕ × Call)) (now : ℕ) (db : Db)
      → AreOrdered now db
      → let w = run_calls redact days now cs db in AreOrdered w.0 w.1
  calls-AreOrdered [] now db h = h
  calls-AreOrdered (c ∷ cs) now db h =
      calls-AreOrdered cs (now + c.0) (run_call redact days (now + c.0) c.1 db) (
        call-AreOrdered (now + c.0) c.1 db
          (later-IsOrdered now (now + c.0) db.sessions db.messages (omega arith) h))
