-- ===== src/Memory/Retry.antt =====
-- context/memory_repository.py: `append_message` again, as after a lost response.
use hommey.Memory.Rows.{Db, MessageRecord, MessageRow, from_row}
use hommey.Memory.Attachments.{bind_ready_attachments}
use hommey.Memory.Messages.{
  Draft, bind_if_user, coalesce, filled, has_message_id, new_message, repeated, with_messages,
  append_message, is_request,
}
use hommey.Memory.Order.{InOrder, IsOrdered}
use hommey.Memory.Reading.{get_messages, is_selected}
use hommey.Memory.Newest.{get_messages_lem, of_session}
use hommey.Memory.Numbering.{inserted-IsOrdered}
use hommey.Memory.Outcomes.{append-outcome}
use hommey.Prelude.{
  Bool, Bool-cases, List, Option, String, [], any, ap, arith, eq_refl, false, find_by,
  find_by-append, inl, inr, is_some, keep, none, ok, refl, some, subst, sym, true, update_where, ℕ,
  ◌&&◌, ◌++◌, ◌+◌, ◌==◌, ◌||◌, ◌∙◌, ◌∷◌, ◌≡◌, String_eq, ℕ_eq,
}

coalesce-same : (x : Option String) → coalesce x x ≡ x
coalesce-same none = refl
coalesce-same (some a) = refl

bind-nothing :
    (now : ℕ) (d : Draft) (r : MessageRecord) (db : Db)
    → d.attachment_ids ≡ []
    → bind_if_user now d r db ≡ ok (r, db)
unfolding bind_ready_attachments
bind-nothing now d r db e = elim (Bool-cases (d.role == "user")) [
  | inl b ↦ rw (b, e) refl
  | inr b ↦ rw b refl
]

update_where-none :
    (p : MessageRow → Bool) (f : MessageRow → MessageRow) (m : MessageRow) (ms : List MessageRow)
    → any p ms ≡ false
    → f m ≡ m
    → update_where p f (ms ++ m ∷ []) ≡ ms ++ m ∷ []
update_where-none p f m [] h e = elim (Bool-cases (p m)) [
  | inl b ↦ rw (b, e) refl
  | inr b ↦ rw b refl
]
update_where-none p f m (n ∷ ms) h e = elim (Bool-cases (p n)) [
  | inl b ↦ absurd (ground (arith, b, h))
  | inr b ↦ rw b (ap (λ t. n ∷ t) (update_where-none p f m ms (ground (arith, b, h)) e))
]

-- The row that the table has last answers the request.
abbrev pub retried : String → String → Draft → Draft
retried id content d = record d { message_id = id; content = content }

module _ (redact : String → String) (days now later : ℕ) (id content : String) (d : Draft) where
  filled-new :
      (n : ℕ)
      → filled (retried id content d) (new_message redact days now n d)
        ≡ new_message redact days now n d
  filled-new n = rw (coalesce-same d.answer_document, coalesce-same d.presentation_document) refl

  repeated-same :
      (n : ℕ) (db : Db) (ms : List MessageRow)
      → db.messages ≡ ms ++ new_message redact days now n d ∷ []
      → any (has_message_id d.message_id) ms ≡ false
      → d.attachment_ids ≡ []
      → repeated later (retried id content d) (new_message redact days now n d) db
        ≡ ok (from_row false (new_message redact days now n d), db)
  unfolding from_row
  repeated-same n db ms e fresh a =
      let m = new_message redact days now n d in
      let same : (d.session_id == d.session_id) ≡ true = eq_refl d.session_id in
      let unchanged : update_where (has_message_id d.message_id) (filled (retried id content d))
            db.messages
          ≡ db.messages =
        ap (update_where (has_message_id d.message_id) (filled (retried id content d))) e
        ∙ (update_where-none (has_message_id d.message_id) (filled (retried id content d)) m ms
              fresh (filled-new n)
            ∙ sym e) in
      elim (Bool-cases
        (d.role == "assistant" && (is_some d.answer_document || is_some d.presentation_document))) [
          | inl c ↦
              rw (same, c)
                (bind-nothing later (retried id content d) _ _ a
                  ∙ ap (λ t. ok (from_row false m, with_messages db t)) unchanged)
          | inr c ↦ rw (same, c) (bind-nothing later (retried id content d) _ _ a)
        ]

  -- A message that was inserted without attachments is appended again, at any time, under any fresh
  -- id and with any text: if user, session, request, role and documents are those of the first call,
  -- the second returns the record of the first, marked as not inserted, and changes nothing.
  pub append-again :
      (r : MessageRecord) (db after : Db)
      → append_message redact days now d db ≡ ok (r, after)
      → r.inserted ≡ true
      → d.attachment_ids ≡ []
      → append_message redact days later (retried id content d) after
        ≡ ok (record r { inserted = false }, after)
  unfolding append_message from_row
  append-again r db after e i a = elim (append-outcome redact days now d db r after e) [
    | inr k ↦ absurd (ground (arith, i, ap (λ t. t.inserted) k.row))
    | inl k ↦
        let n = k.session.last_sequence + 1 in
        let m = new_message redact days now n d in
        let found : find_by (is_request d.user_id d.request_id d.role) after.messages ≡ some m =
          ap (find_by (is_request d.user_id d.request_id d.role)) k.tables.messages
          ∙ find_by-append (is_request d.user_id d.request_id d.role) db.messages m k.is_new
              (ground (arith, eq_refl d.user_id, eq_refl d.request_id, eq_refl d.role)) in
        rw (append_message, found)
          (repeated-same n after db.messages k.tables.messages k.is_fresh a
            ∙ ap (λ (t : MessageRecord). ok (record t { inserted = false }, after)) (sym k.row))
  ]

-- The last of what is kept.
pub keep-snoc :
    (p : MessageRow → Bool) (m : MessageRow) (ms : List MessageRow)
    → p m ≡ true
    → keep p (ms ++ m ∷ []) ≡ keep p ms ++ m ∷ []
keep-snoc p m [] h = rw h refl
keep-snoc p m (n ∷ ms) h = elim (Bool-cases (p n)) [
  | inl b ↦ rw b (ap (λ t. n ∷ t) (keep-snoc p m ms h))
  | inr b ↦ rw b (keep-snoc p m ms h)
]

-- In tables whose messages are in order, the history of the session after an inserted message is the
-- history before it and then the message: its text redacted, under the number and with the ids that
-- the returned record has.
pub append-get_messages :
    (redact : String → String) (days now : ℕ) (d : Draft) (r : MessageRecord) (db after : Db)
    → IsOrdered now db.sessions db.messages
    → append_message redact days now d db ≡ ok (r, after)
    → r.inserted ≡ true
    → let f = of_session d.session_id none in
      let m = new_message redact days now r.sequence_no d in
      (get_messages d.user_id none f after ≡ get_messages d.user_id none f db ++ m ∷ [])
      × (from_row true m ≡ r)
unfolding from_row
append-get_messages redact days now d r db after h e i =
    elim (append-outcome redact days now d db r after e) [
      | inr k ↦ absurd (ground (arith, i, ap (λ t. t.inserted) k.row))
      | inl k ↦
          let f = of_session d.session_id none in
          let m = new_message redact days now (k.session.last_sequence + 1) d in
          let n : r.sequence_no ≡ k.session.last_sequence + 1 = ap (λ t. t.sequence_no) k.row in
          let ordered : InOrder (db.messages ++ m ∷ []) =
            (inserted-IsOrdered redact days now d k.session db.sessions db.messages k.is_open
              k.is_new h).order in
          let picked : is_selected d.user_id f m ≡ true =
            ground (arith, eq_refl d.user_id, eq_refl d.session_id) in
          let after_order : InOrder after.messages =
            subst InOrder (sym k.tables.messages) ordered in
          subst
            (λ (q : ℕ).
              (get_messages d.user_id none f after
                ≡ get_messages d.user_id none f db ++ new_message redact days now q d ∷ [])
              × (from_row true (new_message redact days now q d) ≡ r))
            (sym n)
            (
              get_messages_lem d.user_id d.session_id none none after after_order
                  ∙ (ap (keep (is_selected d.user_id f)) k.tables.messages
                      ∙ (keep-snoc (is_selected d.user_id f) m db.messages picked
                          ∙ ap (λ t. t ++ m ∷ [])
                              (sym
                                (get_messages_lem d.user_id d.session_id none none db h.order)))),
              sym k.row,
            )
    ]
