-- ===== src/Memory/Outcomes.antt =====
-- context/memory_repository.py: the two ways in which `append_message` succeeds.
use hommey.Memory.Rows.{Db, MessageRecord, MessageRow, SessionRecord, from_row}
use hommey.Memory.Sessions.{is_open_session}
use hommey.Memory.Attachments.{bind_ids, bind_ready_attachments, distinct_from}
use hommey.Memory.Messages.{
  Draft, append_message, appended, bind_if_user, filled, has_message_id, inserted_db, is_request,
  new_message, repeated, with_messages,
}
use hommey.Memory.Appending.{bind_if_user-rows, err-ok, ok-injective, rows_of}
use hommey.Prelude.{
  Bool, Bool-cases, Option-cases, Result-cases, String, [], any, ap, false, find_by, if◌then◌else◌,
  inl, inr, is_some, none, ok, refl, some, subst, sym, true, update_where, ℕ, ◌&&◌, ◌+◌, ◌==◌, ◌||◌,
  ◌≡◌, ◌⊎◌, String_eq, ℕ_eq,
}

-- Attachments and links apart, the tables that both have.
pub record AreSame (db after : Db) : Type 0 where
  pub messages : after.messages ≡ db.messages
  pub sessions : after.sessions ≡ db.sessions
  pub versions : after.versions ≡ db.versions

bind-record :
    (now : ℕ) (d : Draft) (r s : MessageRecord) (db after : Db)
    → bind_if_user now d r db ≡ ok (s, after)
    → s ≡ r
unfolding bind_ready_attachments
bind-record now d r s db after e = elim (Bool-cases (d.role == "user")) [
  | inl b ↦ elim (Result-cases (bind_ids now r (distinct_from [] d.attachment_ids) db)) [
    | inl (x, f) ↦ absurd (err-ok (rw (b, f) at e))
    | inr (a, f) ↦ sym (ap (λ p. p.0) (ok-injective (rw (b, f) at e)))
  ]
  | inr b ↦ sym (ap (λ p. p.0) (ok-injective (rw b at e)))
]

bind-AreSame :
    (now : ℕ) (d : Draft) (r s : MessageRecord) (db after : Db)
    → bind_if_user now d r db ≡ ok (s, after)
    → AreSame db after
bind-AreSame now d r s db after e =
    subst (λ m. AreSame db (rows_of db m)) e
      (bind_if_user-rows now d r db db (AreSame db)
        (record { messages = refl; sessions = refl; versions = refl })
        (λ ls xs. record { messages = refl; sessions = refl; versions = refl }))

module _ (redact : String → String) (days now : ℕ) (d : Draft) (db : Db) where
  -- A new row.
  pub record IsInserted (r : MessageRecord) (after : Db) : Type 0 where
    pub session : SessionRecord
    pub is_open : find_by (is_open_session d.user_id d.session_id) db.sessions ≡ some session
    pub is_new : find_by (is_request d.user_id d.request_id d.role) db.messages ≡ none
    pub is_fresh : any (has_message_id d.message_id) db.messages ≡ false
    pub tables : AreSame (inserted_db redact days now d session db) after
    pub row : r ≡ from_row true (new_message redact days now (session.last_sequence + 1) d)

  -- The row of the request, with the documents that it lacked.
  pub record IsRepeated (r : MessageRecord) (after : Db) : Type 0 where
    pub message : MessageRow
    pub is_there : find_by (is_request d.user_id d.request_id d.role) db.messages ≡ some message
    pub in_session : (message.session_id == d.session_id) ≡ true
    pub fills : Bool
    pub tables :
        AreSame
          (if fills
            then with_messages db
                (update_where (has_message_id message.message_id) (filled d) db.messages)
            else db)
          after
    pub row : r ≡ from_row false message

  repeated-IsRepeated :
      (m : MessageRow) (r : MessageRecord) (after : Db)
      → find_by (is_request d.user_id d.request_id d.role) db.messages ≡ some m
      → repeated now d m db ≡ ok (r, after)
      → IsRepeated r after
  unfolding from_row
  repeated-IsRepeated m r after there e = elim (Bool-cases (m.session_id == d.session_id)) [
    | inr b ↦ absurd (err-ok (rw b at e))
    | inl b ↦
        elim (Bool-cases (
          d.role == "assistant"
          && (is_some d.answer_document || is_some d.presentation_document))) [
            | inl c ↦
                let f = rw (b, c) at e in
                record {
                  message = m;
                  is_there = there;
                  in_session = b;
                  fills = true;
                  tables = bind-AreSame now d _ r _ after f;
                  row = bind-record now d _ r _ after f;
                }
            | inr c ↦
                let f = rw (b, c) at e in
                record {
                  message = m;
                  is_there = there;
                  in_session = b;
                  fills = false;
                  tables = bind-AreSame now d _ r _ after f;
                  row = bind-record now d _ r _ after f;
                }
          ]
  ]

  appended-IsInserted :
      (s : SessionRecord) (r : MessageRecord) (after : Db)
      → find_by (is_open_session d.user_id d.session_id) db.sessions ≡ some s
      → find_by (is_request d.user_id d.request_id d.role) db.messages ≡ none
      → appended redact days now d s db ≡ ok (r, after)
      → IsInserted r after
  appended-IsInserted s r after there new e =
      elim (Bool-cases (any (has_message_id d.message_id) db.messages)) [
        | inl b ↦ absurd (err-ok (rw b at e))
        | inr b ↦
            let f = rw b at e in
            record {
              session = s;
              is_open = there;
              is_new = new;
              is_fresh = b;
              tables = bind-AreSame now d _ r _ after f;
              row = bind-record now d _ r _ after f;
            }
      ]

  pub append-outcome :
      (r : MessageRecord) (after : Db)
      → append_message redact days now d db ≡ ok (r, after)
      → IsInserted r after ⊎ IsRepeated r after
  unfolding append_message
  append-outcome r after e =
      elim (Option-cases (find_by (is_request d.user_id d.request_id d.role) db.messages)) [
        | inr (m, k) ↦ inr (repeated-IsRepeated m r after k (rw (append_message, k) at e))
        | inl n ↦
            elim (Option-cases (find_by (is_open_session d.user_id d.session_id) db.sessions)) [
              | inl k ↦ absurd (err-ok (rw (append_message, n, k) at e))
              | inr (s, k) ↦
                  inl (appended-IsInserted s r after k n (rw (append_message, n, k) at e))
            ]
      ]
