-- ===== src/Memory/Gone.antt =====
-- context/memory_repository.py: a deleted session stays deleted.
use hommey.Memory.Rows.{Db, MemoryError, MessageRecord, SessionRecord, from_row, session_not_found}
use hommey.Memory.Sessions.{closed_for, is_open_session, is_owned, is_resumable, resume_session}
use hommey.Memory.Messages.{Draft, append_message}
use hommey.Memory.Reading.{delete_chat_session}
use hommey.Memory.Order.{later-IsOrdered, owned-session}
use hommey.Memory.Appending.{AreOrdered}
use hommey.Memory.Outcomes.{append-outcome}
use hommey.Memory.Reach.{Call, call-AreOrdered, deletes, run_calls}
use hommey.Memory.Reopening.{IsNoActivation, call-AreRetired}
use hommey.Memory.Retired.{AreRetired, IsRetired, any-update}
use hommey.Prelude.{
  All, Bool, Bool-cases, List, Result, Result-cases, String, [], any, ap, arith, err, false,
  find_by, inl, inr, none, ok, refl, true, update_where, ℕ, ◌+◌, ◌∷◌, ◌≡◌,
}

-- Whether a message was inserted.
abbrev pub is_inserted : Result MemoryError (MessageRecord × Db) → Bool
is_inserted (ok r) = r.0.inserted
is_inserted (err e) = false

find_by-holds_none :
    {Q : SessionRecord → Type 0} (p : SessionRecord → Bool) (ss : List SessionRecord)
    → ((s : SessionRecord) → Q s → p s ≡ false)
    → All Q ss
    → find_by p ss ≡ none
find_by-holds_none p [] k h = refl
find_by-holds_none p (s ∷ ss) k h = rw (k s h.0) (find_by-holds_none p ss k h.1)

module _ (user sid : String) where
  deleted-All :
      (now : ℕ) (ss : List SessionRecord)
      → All (IsRetired user sid) (update_where (is_owned user sid) (closed_for now "deleted") ss)
  deleted-All now [] = tt
  deleted-All now (s ∷ ss) = elim (Bool-cases (is_owned user sid s)) [
    | inl b ↦ rw b ((λ o. (refl, refl)), deleted-All now ss)
    | inr b ↦ rw b ((λ o. absurd (ground (arith, b, o))), deleted-All now ss)
  ]

  delete-AreRetired :
      (now : ℕ) (db : Db)
      → any (is_owned user sid) db.sessions ≡ true
      → AreRetired user sid (delete_chat_session now user sid db).sessions
  unfolding delete_chat_session
  delete-AreRetired now db h = record {
    retired = deleted-All now db.sessions;
    there =
        any-update user sid (is_owned user sid) (closed_for now "deleted") db.sessions (λ x. refl)
          (owned-session user sid db.sessions h);
  }

  calls-AreRetired :
      (redact : String → String) (days : ℕ) (cs : List (ℕ × Call)) (now : ℕ) (db : Db)
      → All (λ c. IsNoActivation user sid c.1) cs
      → AreOrdered now db
      → AreRetired user sid db.sessions
      → AreRetired user sid (run_calls redact days now cs db).1.sessions
  calls-AreRetired redact days [] now db n o h = h
  calls-AreRetired redact days (c ∷ cs) now db n o h =
      let later = later-IsOrdered now (now + c.0) db.sessions db.messages (omega arith) o in
      calls-AreRetired redact days cs (now + c.0) _ n.1
        (call-AreOrdered redact days (now + c.0) c.1 db later)
        (call-AreRetired user sid redact days (now + c.0) c.1 db n.0 (later, h))

  retired-resume :
      (db : Db)
      → AreRetired user sid db.sessions
      → resume_session user sid db ≡ err session_not_found
  unfolding resume_session
  retired-resume db h =
      let e : find_by (is_resumable user sid) db.sessions ≡ none =
        find_by-holds_none (is_resumable user sid) db.sessions
          (λ s q. elim (Bool-cases (is_owned user sid s)) [
            | inl b ↦ ground (arith, b, (q b).1)
            | inr b ↦ ground (arith, b)
          ])
          h.retired in
      rw (resume_session, e) refl

  retired-append :
      (redact : String → String) (days now : ℕ) (d : Draft) (db : Db)
      → d.user_id ≡ user
      → d.session_id ≡ sid
      → AreRetired user sid db.sessions
      → is_inserted (append_message redact days now d db) ≡ false
  unfolding from_row
  retired-append redact days now d db u s h =
      let e : find_by (is_open_session user sid) db.sessions ≡ none =
        find_by-holds_none (is_open_session user sid) db.sessions
          (λ t q. elim (Bool-cases (is_owned user sid t)) [
            | inl b ↦ ground (arith, b, (q b).0)
            | inr b ↦ ground (arith, b)
          ])
          h.retired in
      elim (Result-cases (append_message redact days now d db)) [
        | inl (x, k) ↦ rw (is_inserted, k) refl
        | inr ((r, after), k) ↦ elim (append-outcome redact days now d db r after k) [
          | inl j ↦ absurd (ground (arith, e, rw (u, s) at j.is_open))
          | inr j ↦ rw (is_inserted, k) (ap (λ t. t.inserted) j.row)
        ]
      ]

  -- Once a session of the user is deleted, in ordered tables, whatever calls follow, of any users,
  -- as long as none is `activate_session` of that session: `resume_session` finds it no more, and no
  -- draft of that user and session is inserted, at any time.
  pub deleted-gone :
      (redact : String → String) (days now later : ℕ) (cs : List (ℕ × Call)) (d : Draft) (db : Db)
      → AreOrdered now db
      → any (is_owned user sid) db.sessions ≡ true
      → All (λ c. IsNoActivation user sid c.1) cs
      → d.user_id ≡ user
      → d.session_id ≡ sid
      → let w = run_calls redact days now cs (delete_chat_session now user sid db) in
        (resume_session user sid w.1 ≡ err session_not_found)
        × (is_inserted (append_message redact days later d w.1) ≡ false)
  deleted-gone redact days now later cs d db o t n u s =
      let gone =
        calls-AreRetired redact days cs now _ n
          (call-AreOrdered redact days now (deletes user sid) db o) (delete-AreRetired now db t) in
      (retired-resume _ gone, retired-append redact days later d _ u s gone)
