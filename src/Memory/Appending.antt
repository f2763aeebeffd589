-- ===== src/Memory/Appending.antt =====
-- context/memory_repository.py: what `append_message` does to the tables, attachments included.
use hommey.Memory.Rows.{Attachment, Db, MemoryError, MessageRecord, MessageRow, SessionRecord}
use hommey.Memory.Sessions.{is_open_session}
use hommey.Memory.Attachments.{
  bind_ids, bind_ready_attachments, distinct_from, is_bindable, is_link, same_set,
}
use hommey.Memory.Messages.{
  Draft, append_message, appended, bind_if_user, has_message_id, is_request, repeated,
}
use hommey.Memory.Order.{IsOrdered}
use hommey.Memory.Kept.{filled-IsOrdered}
use hommey.Memory.Numbering.{inserted-IsOrdered}
use hommey.Prelude.{
  Bool-cases, List, Option-cases, Result, Result-cases, String, [], any, arith, err, find_by, inl,
  inr, is_some, keep, map, none, not, ok, some, subst, ℕ, ◌&&◌, ◌==◌, ◌||◌, ◌∷◌, ◌≡◌, String_eq,
  ℕ_eq,
}

-- The rows after a transaction; an error rolls it back.
abbrev pub rows_of {ℓ} : {A : Type ℓ} → Db → Result MemoryError (A × Db) → Db
rows_of db (ok r) = r.1
rows_of db (err e) = db

abbrev pub AreOrdered : ℕ → Db → Type 0
AreOrdered now db = IsOrdered now db.sessions db.messages

pub err-ok : {E A : Type 0} {e : E} {a : A} → err e ≡ (let r : Result E A = ok a in r) → ⊥
err-ok e = cc

pub ok-injective : {E A : Type 0} {a b : A} → ok a ≡ (let r : Result E A = ok b in r) → a ≡ b
ok-injective e = cc

-- The statements on attachments leave sessions, messages and counters.
bind_ids-rows :
    (now : ℕ) (r : MessageRecord) (ids : List String) (db : Db) (P : Db → Type 0)
    → ((ls : List (String × String)) (xs : List Attachment)
        → P (record db { links = ls; attachments = xs }))
    → (after : Db) → bind_ids now r ids db ≡ ok after
    → P after
bind_ids-rows now r [] db P k after e = subst P (ground (arith, e)) (k db.links db.attachments)
bind_ids-rows now r (i ∷ is) db P k after e =
    let ids = i ∷ is in
    let found =
      map (λ (a : Attachment). a.id) (keep (is_bindable now r.user_id ids) db.attachments) in
    let bound = map (λ (l : String × String). l.1) (keep (is_link r.message_id ids) db.links) in
    elim (Bool-cases (not (same_set found ids))) [
      | inl b ↦ absurd (err-ok (rw b at e))
      | inr b ↦ elim (Bool-cases (not r.inserted && not (same_set bound ids))) [
        | inl c ↦ absurd (err-ok (rw (b, c) at e))
        | inr c ↦ subst P (ok-injective (rw (b, c) at e)) (k _ _)
      ]
    ]

pub bind_if_user-rows :
    (now : ℕ) (d : Draft) (r : MessageRecord) (before db : Db) (P : Db → Type 0)
    → P before
    → ((ls : List (String × String)) (xs : List Attachment)
        → P (record db { links = ls; attachments = xs }))
    → P (rows_of before (bind_if_user now d r db))
unfolding bind_ready_attachments
bind_if_user-rows now d r before db P p k = elim (Bool-cases (d.role == "user")) [
  | inl b ↦ elim (Result-cases (bind_ids now r (distinct_from [] d.attachment_ids) db)) [
    | inl (x, e) ↦ rw (rows_of, b, e) p
    | inr (after, e) ↦
        rw (rows_of, b, e) (bind_ids-rows now r (distinct_from [] d.attachment_ids) db P k after e)
  ]
  | inr b ↦ rw b (k db.links db.attachments)
]

module _ (redact : String → String) (days now : ℕ) (d : Draft) (db : Db) where
  repeated-AreOrdered :
      (m : MessageRow) → AreOrdered now db → AreOrdered now (rows_of db (repeated now d m db))
  repeated-AreOrdered m h = elim (Bool-cases (m.session_id == d.session_id)) [
    | inr b ↦ rw (rows_of, b) h
    | inl b ↦
        elim (Bool-cases (
          d.role == "assistant"
          && (is_some d.answer_document || is_some d.presentation_document))) [
            | inl c ↦
                rw (b, c)
                  (bind_if_user-rows now d _ db _ (AreOrdered now) h (λ ls xs.
                    filled-IsOrdered now (has_message_id m.message_id) d.answer_document
                      d.presentation_document _ _ h))
            | inr c ↦ rw (b, c) (bind_if_user-rows now d _ db _ (AreOrdered now) h (λ ls xs. h))
          ]
  ]

  appended-AreOrdered :
      (s : SessionRecord)
      → find_by (is_open_session d.user_id d.session_id) db.sessions ≡ some s
      → find_by (is_request d.user_id d.request_id d.role) db.messages ≡ none
      → AreOrdered now db
      → AreOrdered now (rows_of db (appended redact days now d s db))
  appended-AreOrdered s e n h = elim (Bool-cases (any (has_message_id d.message_id) db.messages)) [
    | inl b ↦ rw (rows_of, b) h
    | inr b ↦ rw b (
        bind_if_user-rows now d _ db _ (AreOrdered now) h
          (λ ls xs. inserted-IsOrdered redact days now d s db.sessions db.messages e n h))
  ]

  pub append-AreOrdered :
      AreOrdered now db → AreOrdered now (rows_of db (append_message redact days now d db))
  unfolding append_message
  append-AreOrdered h =
      elim (Option-cases (find_by (is_request d.user_id d.request_id d.role) db.messages)) [
        | inr (m, e) ↦ rw (rows_of, e) (repeated-AreOrdered m h)
        | inl n ↦
            elim (Option-cases (find_by (is_open_session d.user_id d.session_id) db.sessions)) [
              | inl e ↦ rw (rows_of, n, e) h
              | inr (s, e) ↦ rw (rows_of, n, e) (appended-AreOrdered s e n h)
            ]
      ]
