-- ===== src/Memory/Calls.antt =====
-- context/memory_repository.py: each transaction's effect on the history of one session.
use hommey.Memory.Rows.{Db, MessageRow, SessionRecord}
use hommey.Memory.Sessions.{
  activate_session, close_session, create_session, get_or_create_session, insert_session, is_open,
  is_owned, is_resumable, is_session, latest, resume_session, rotate_session, with_sessions,
}
use hommey.Memory.Messages.{Draft, append_message, has_message_id, new_message}
use hommey.Memory.Reading.{
  clear_chat_history, delete_chat_session, is_in_session, update_message_documents,
}
use hommey.Memory.Appending.{rows_of}
use hommey.Memory.Outcomes.{append-outcome}
use hommey.Memory.Reach.{
  Call, activates, appends, clears, closes, creates, deletes, gets_or_creates, repairs, resumes,
  rotates, run_call,
}
use hommey.Memory.Effects.{
  Effect, filled-Effect, inserted-Effect, is_ours, kept-Effect, removed-Effect,
}
use hommey.Prelude.{
  Bool-cases, List, Option-cases, Result-cases, String, any, arith, eq_iff, false, find_by, inl,
  inr, is_some, keep, leb, max, not, refl, subst, sym, true, ℕ, ◌&&◌, ◌+◌, ◌==◌, ◌||◌, ◌≡◌,
  String_eq, ℕ_eq,
}

module _ (user sid : String) where
  same-Effect : (db : Db) → Effect user sid db db
  same-Effect db = kept-Effect user sid db db refl refl

  pub append-Effect :
      (redact : String → String) (days now : ℕ) (d : Draft) (db : Db)
      → Effect user sid db (rows_of db (append_message redact days now d db))
  append-Effect redact days now d db = elim (Result-cases (append_message redact days now d db)) [
    | inl (x, e) ↦ subst (λ m. Effect user sid db (rows_of db m)) (sym e) (same-Effect db)
    | inr ((r, after), e) ↦
        subst (λ m. Effect user sid db (rows_of db m)) (sym e)
          (elim (append-outcome redact days now d db r after e) [
            | inl k ↦
                inserted-Effect user sid
                  (new_message redact days now (k.session.last_sequence + 1) d) db after
                  k.tables.messages k.tables.versions
            | inr k ↦ elim (Bool-cases k.fills) [
              | inl b ↦
                  let t = rw b at k.tables in
                  filled-Effect user sid (has_message_id k.message.message_id) d.answer_document
                    d.presentation_document db after t.messages t.versions
              | inr b ↦
                  let t = rw b at k.tables in kept-Effect user sid db after t.messages t.versions
            ]
          ])
  ]

  insert-Effect :
      (now : ℕ) (fresh u : String) (before db : Db)
      → Effect user sid before before
      → ((ss : List SessionRecord) → Effect user sid before (with_sessions db ss))
      → Effect user sid before (rows_of before (insert_session now fresh u db))
  unfolding insert_session
  insert-Effect now fresh u before db h k = elim (Bool-cases (any (is_session fresh) db.sessions)) [
    | inl b ↦ rw (rows_of, b) h
    | inr b ↦ rw b (k _)
  ]

  sessions-Effect : (db : Db) (ss : List SessionRecord) → Effect user sid db (with_sessions db ss)
  sessions-Effect db ss = kept-Effect user sid db (with_sessions db ss) refl refl

  get_or_create-Effect :
      (now : ℕ) (fresh u : String) (timeout : ℕ) (db : Db)
      → Effect user sid db (rows_of db (get_or_create_session now fresh u timeout db))
  unfolding get_or_create_session insert_session
  get_or_create-Effect now fresh u timeout db =
      elim (Option-cases (latest (keep (is_open u) db.sessions))) [
        | inl e ↦
            rw (rows_of, e) (insert-Effect now fresh u db db (same-Effect db) (sessions-Effect db))
        | inr (s, e) ↦ elim (Bool-cases (leb now (s.last_active_at + max timeout 1))) [
          | inl b ↦ rw (rows_of, e, b) (sessions-Effect db _)
          | inr b ↦
              rw (rows_of, e, b)
                (insert-Effect now fresh u db _ (same-Effect db) (λ ss. sessions-Effect db ss))
        ]
      ]

  resume-Effect : (u s : String) (db : Db) → Effect user sid db (rows_of db (resume_session u s db))
  unfolding resume_session
  resume-Effect u s db = elim (Option-cases (find_by (is_resumable u s) db.sessions)) [
    | inl e ↦ rw (rows_of, e) (same-Effect db)
    | inr (t, e) ↦ rw (rows_of, e) (sessions-Effect db _)
  ]

  activate-Effect :
      (now : ℕ) (u s : String) (db : Db)
      → Effect user sid db (rows_of db (activate_session now u s db))
  unfolding activate_session
  activate-Effect now u s db = elim (Option-cases (find_by (is_owned u s) db.sessions)) [
    | inl e ↦ rw (rows_of, e) (same-Effect db)
    | inr (t, e) ↦ rw (rows_of, e) (sessions-Effect db _)
  ]

  -- A call that does not delete the session's messages.
  abbrev pub IsElsewhere : Call → Type 0
  IsElsewhere (deletes u s) = (user == u && sid == s) ≡ false
  IsElsewhere (clears u) = (user == u) ≡ false
  IsElsewhere _ = Unit

  other-kept :
      (u s : String) (m : MessageRow)
      → (user == u && sid == s) ≡ false
      → is_ours user sid m ≡ true
      → not (is_in_session u s m) ≡ true
  other-kept u s m h o =
      let e : m.user_id ≡ user = (eq_iff m.user_id user).0 (ground (arith, o)) in
      let f : m.session_id ≡ sid = (eq_iff m.session_id sid).0 (ground (arith, o)) in
      rw (e, f, h) refl

  pub call-Effect :
      (redact : String → String) (days now : ℕ) (c : Call) (db : Db)
      → IsElsewhere c
      → Effect user sid db (run_call redact days now c db)
  unfolding rotate_session create_session close_session update_message_documents delete_chat_session
      clear_chat_history
  call-Effect redact days now (gets_or_creates fresh u timeout) db h =
      get_or_create-Effect now fresh u timeout db
  call-Effect redact days now (rotates fresh u reason) db h =
      insert-Effect now fresh u db _ (same-Effect db) (λ ss. sessions-Effect db ss)
  call-Effect redact days now (creates fresh u) db h =
      insert-Effect now fresh u db db (same-Effect db) (sessions-Effect db)
  call-Effect redact days now (resumes u s) db h = resume-Effect u s db
  call-Effect redact days now (activates u s) db h = activate-Effect now u s db
  call-Effect redact days now (closes u s reason) db h = sessions-Effect db _
  call-Effect redact days now (appends d) db h = append-Effect redact days now d db
  call-Effect redact days now (repairs u id a p) db h =
      elim (Bool-cases (not (is_some a || is_some p))) [
        | inl b ↦ rw (run_call, b) (same-Effect db)
        | inr b ↦ rw (run_call, b) (filled-Effect user sid _ a p db _ refl refl)
      ]
  call-Effect redact days now (deletes u s) db h =
      removed-Effect user sid (λ m. not (is_in_session u s m)) db _ (λ m o. other-kept u s m h o)
        refl refl
  call-Effect redact days now (clears u) db h =
      removed-Effect user sid (λ m. not (m.user_id == u)) db _
        (λ m o.
          let e : m.user_id ≡ user = (eq_iff m.user_id user).0 (ground (arith, o)) in
          rw (e, h) refl)
        refl refl
