-- ===== src/Memory/Reopening.antt =====
-- context/memory_repository.py: no transaction reopens a session that was deleted.
use hommey.Memory.Rows.{Db, SessionRecord, is_active}
use hommey.Memory.Sessions.{
  activate_session, again, close_session, closed_for, create_session, get_or_create_session,
  insert_session, is_open, is_open_session, is_other_open, is_owned, is_resumable, is_session,
  is_users, latest, new_session, reopened, resume_session, rotate_session, touched,
}
use hommey.Memory.Messages.{Draft, append_message, counted}
use hommey.Memory.Reading.{
  clear_chat_history, cleared_for, delete_chat_session, update_message_documents,
}
use hommey.Memory.Appending.{AreOrdered, rows_of}
use hommey.Memory.Outcomes.{append-outcome}
use hommey.Memory.Reach.{
  Call, activates, appends, clears, closes, creates, deletes, gets_or_creates, repairs, resumes,
  rotates, run_call,
}
use hommey.Memory.Retired.{AreRetired, open-kept, snoc-AreRetired, update-AreRetired}
use hommey.Prelude.{
  Bool, Bool-cases, In, In-keep, In-unique, List, Option-cases, Result-cases, String, [], any,
  arith, eq_iff, eq_refl, false, find_by, inl, inr, is_some, keep, leb, max, not, refl, some, subst,
  true, update_where, ℕ, ◌&&◌, ◌+◌, ◌==◌, ◌||◌, ◌∙◌, ◌∷◌, ◌≡◌, String_eq, ℕ_eq,
}

module _ (user sid : String) where
  -- Every call but `activate_session` of the session.
  abbrev pub IsNoActivation : Call → Type 0
  IsNoActivation (activates u s) = (user == u && sid == s) ≡ false
  IsNoActivation _ = Unit

  abbrev AreGone : ℕ → Db → Type 0
  AreGone now db = AreOrdered now db × AreRetired user sid db.sessions

  latest-In : (s : SessionRecord) (ss : List SessionRecord) → latest ss ≡ some s → In s ss
  latest-In s [] e = cc
  latest-In s (t ∷ ss) e = elim (Option-cases (latest ss)) [
    | inl n ↦ inl (ground (arith, rw n at e))
    | inr (u, k) ↦ elim (Bool-cases (leb u.last_active_at t.last_active_at)) [
      | inl b ↦ inl (ground (arith, rw (k, b) at e))
      | inr b ↦ inr (latest-In s ss (k ∙ rw (k, b) at e))
    ]
  ]

  insert-AreRetired :
      (now : ℕ) (fresh u : String) (before db : Db)
      → AreRetired user sid before.sessions
      → AreRetired user sid db.sessions
      → AreRetired user sid (rows_of before (insert_session now fresh u db)).sessions
  unfolding insert_session
  insert-AreRetired now fresh u before db o h =
      elim (Bool-cases (any (is_session fresh) db.sessions)) [
        | inl b ↦ rw (rows_of, b) o
        | inr b ↦ rw b (snoc-AreRetired user sid (new_session now fresh u) db.sessions b h)
      ]

  -- A row with the id of an open session is that session.
  same-open :
      (now : ℕ) (db : Db) (u : String) (s t : SessionRecord)
      → AreOrdered now db
      → latest (keep (is_open u) db.sessions) ≡ some s
      → In t db.sessions
      → is_session s.session_id t ≡ true
      → is_active t.status ≡ true
  same-open now db u s t h e i b =
      let (j, o) =
        In-keep (is_open u) s db.sessions (latest-In s (keep (is_open u) db.sessions) e) in
      let same : s ≡ t =
        In-unique (is_session s.session_id) s t db.sessions (h.unique s.session_id)
          (eq_refl s.session_id) b j i in
      subst (λ (x : SessionRecord). is_active x.status ≡ true) same (ground (arith, o))

  get_or_create-AreRetired :
      (now : ℕ) (fresh u : String) (timeout : ℕ) (db : Db)
      → AreGone now db
      → AreRetired user sid (rows_of db (get_or_create_session now fresh u timeout db)).sessions
  unfolding get_or_create_session insert_session
  get_or_create-AreRetired now fresh u timeout db (o, h) =
      elim (Option-cases (latest (keep (is_open u) db.sessions))) [
        | inl e ↦ rw (rows_of, e) (insert-AreRetired now fresh u db db h h)
        | inr (s, e) ↦ elim (Bool-cases (leb now (s.last_active_at + max timeout 1))) [
          | inl b ↦
              rw (rows_of, e, b)
                (update-AreRetired user sid (is_session s.session_id) (touched now) db.sessions
                  (λ t. refl) (λ t i k q. q) h)
          | inr b ↦
              rw (rows_of, e, b)
                (insert-AreRetired now fresh u db _ h (
                  update-AreRetired user sid (is_session s.session_id) (closed_for now "idle")
                    db.sessions (λ t. refl)
                    (λ t i k q p. absurd (ground (arith, (q p).0, same-open now db u s t o e i k)))
                    h))
        ]
      ]

  resume-AreRetired :
      (u s : String) (db : Db)
      → AreRetired user sid db.sessions
      → AreRetired user sid (rows_of db (resume_session u s db)).sessions
  unfolding resume_session
  resume-AreRetired u s db h = elim (Option-cases (find_by (is_resumable u s) db.sessions)) [
    | inl e ↦ rw (rows_of, e) h
    | inr (t, e) ↦
        rw (rows_of, e)
          (update-AreRetired user sid (is_resumable u s) reopened db.sessions (λ x. refl)
            (λ x i b q p. absurd (ground (arith, (q p).1, b))) h)
  ]

  activate-AreRetired :
      (now : ℕ) (u s : String) (db : Db)
      → (user == u && sid == s) ≡ false
      → AreRetired user sid db.sessions
      → AreRetired user sid (rows_of db (activate_session now u s db)).sessions
  unfolding activate_session
  activate-AreRetired now u s db n h = elim (Option-cases (find_by (is_owned u s) db.sessions)) [
    | inl e ↦ rw (rows_of, e) h
    | inr (t, e) ↦
        let switched =
          update-AreRetired user sid (is_other_open u s) (closed_for now "switched") db.sessions
            (λ x. refl)
            (λ x i b q.
              open-kept user sid (is_other_open u s) (closed_for now "switched") (λ y. refl)
                (λ y. refl) (λ y c. ground (arith, c)) x b q)
            h in
        rw (rows_of, e)
          (update-AreRetired user sid (is_owned u s) (again now) _ (λ x. refl)
            (λ x i b q p.
              let e : x.user_id ≡ user = (eq_iff x.user_id user).0 (ground (arith, p)) in
              let f : x.session_id ≡ sid = (eq_iff x.session_id sid).0 (ground (arith, p)) in
              absurd (ground (arith, n, rw (e, f) at b)))
            switched)
  ]

  append-AreRetired :
      (redact : String → String) (days now : ℕ) (d : Draft) (db : Db)
      → AreRetired user sid db.sessions
      → AreRetired user sid (rows_of db (append_message redact days now d db)).sessions
  append-AreRetired redact days now d db h =
      elim (Result-cases (append_message redact days now d db)) [
        | inl (x, e) ↦ rw (rows_of, e) h
        | inr ((r, after), e) ↦ elim (append-outcome redact days now d db r after e) [
          | inl k ↦
              rw (rows_of, e, k.tables.sessions)
                (update-AreRetired user sid (is_session d.session_id)
                  (counted now (k.session.last_sequence + 1)) db.sessions (λ t. refl) (λ t i b q. q)
                  h)
          | inr k ↦ elim (Bool-cases k.fills) [
            | inl b ↦ let t = rw b at k.tables in rw (rows_of, e, t.sessions) h
            | inr b ↦ let t = rw b at k.tables in rw (rows_of, e, t.sessions) h
          ]
        ]
      ]

  closed-AreRetired :
      (p : SessionRecord → Bool) (now : ℕ) (reason : String) (ss : List SessionRecord)
      → ((s : SessionRecord) → p s ≡ true → is_active s.status ≡ true)
      → AreRetired user sid ss
      → AreRetired user sid (update_where p (closed_for now reason) ss)
  closed-AreRetired p now reason ss a h =
      update-AreRetired user sid p (closed_for now reason) ss (λ x. refl)
        (λ x i b q. open-kept user sid p (closed_for now reason) (λ y. refl) (λ y. refl) a x b q) h

  pub call-AreRetired :
      (redact : String → String) (days now : ℕ) (c : Call) (db : Db)
      → IsNoActivation c
      → AreGone now db
      → AreRetired user sid (run_call redact days now c db).sessions
  unfolding rotate_session create_session close_session update_message_documents delete_chat_session
      clear_chat_history
  call-AreRetired redact days now (gets_or_creates fresh u timeout) db n g =
      get_or_create-AreRetired now fresh u timeout db g
  call-AreRetired redact days now (rotates fresh u reason) db n g =
      insert-AreRetired now fresh u db _ g.1
        (closed-AreRetired (is_open u) now reason db.sessions (λ s b. ground (arith, b)) g.1)
  call-AreRetired redact days now (creates fresh u) db n g =
      insert-AreRetired now fresh u db db g.1 g.1
  call-AreRetired redact days now (resumes u s) db n g = resume-AreRetired u s db g.1
  call-AreRetired redact days now (activates u s) db n g = activate-AreRetired now u s db n g.1
  call-AreRetired redact days now (closes u s reason) db n g =
      closed-AreRetired (is_open_session u s) now reason db.sessions (λ t b. ground (arith, b)) g.1
  call-AreRetired redact days now (appends d) db n g = append-AreRetired redact days now d db g.1
  call-AreRetired redact days now (repairs u id a p) db n g =
      elim (Bool-cases (not (is_some a || is_some p))) [
        | inl b ↦ rw (run_call, b) g.1
        | inr b ↦ rw (run_call, b) g.1
      ]
  call-AreRetired redact days now (deletes u s) db n g =
      update-AreRetired user sid (is_owned u s) (closed_for now "deleted") db.sessions (λ x. refl)
        (λ x i b q p. (refl, refl)) g.1
  call-AreRetired redact days now (clears u) db n g =
      update-AreRetired user sid (is_users u) (cleared_for now) db.sessions (λ x. refl)
        (λ x i b q p. (refl, refl)) g.1
