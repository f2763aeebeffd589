-- ===== src/Memory/Messages.antt =====
-- context/memory_repository.py: `append_message`, one transaction, which an error rolls back.
use hommey.Memory.Rows.{
  Counter, Db, MemoryError, MessageRecord, MessageRow, SessionRecord, closed_session, duplicate_key,
  from_row, other_session,
}
use hommey.Memory.Attachments.{bind_ready_attachments}
use hommey.Memory.Sessions.{is_open_session, is_session}
use hommey.Prelude.{
  Bool, List, Option, Result, String, [], any, err, false, find_by, if◌then◌else◌, is_some, max,
  none, not, ok, some, true, update_where, ℕ, ◌&&◌, ◌*◌, ◌++◌, ◌+◌, ◌==◌, ◌||◌, ◌∷◌, String_eq,
  ℕ_eq,
}

-- The arguments of `append_message`; a fresh UUID is `message_id`, and `turn_id` is the id that is
-- given or that `uuid5` derives. An empty document is none, as `Jsonb(d) if d else None` has it.
pub record Draft : Type 0 where
  pub message_id : String
  pub user_id : String
  pub session_id : String
  pub role : String
  pub content : String
  pub request_id : String
  pub turn_id : String
  pub content_type : String
  pub token_count : Option ℕ
  pub attachment_ids : List String
  pub answer_document : Option String
  pub presentation_document : Option String

-- WHERE user_id = … AND request_id = … AND role = …
abbrev pub is_request : String → String → String → MessageRow → Bool
is_request user_id request_id role m =
    m.user_id == user_id && m.request_id == request_id && m.role == role

-- COALESCE(a, b)
abbrev pub coalesce : Option String → Option String → Option String
coalesce none b = b
coalesce (some a) b = some a

abbrev pub filled_in : Option String → Option String → MessageRow → MessageRow
filled_in answer presentation m = record m {
  answer_document = coalesce m.answer_document answer;
  presentation_document = coalesce m.presentation_document presentation;
}

abbrev pub filled : Draft → MessageRow → MessageRow
filled d m = filled_in d.answer_document d.presentation_document m

abbrev pub has_message_id : String → MessageRow → Bool
has_message_id id m = m.message_id == id

abbrev pub with_messages : Db → List MessageRow → Db
with_messages db ms = record db { messages = ms }

-- INSERT … ON CONFLICT DO UPDATE, of a user's counter
abbrev pub incremented : String → List Counter → List Counter
incremented user_id [] = record { user_id = user_id; value = 1 } ∷ []
incremented user_id (c ∷ cs) =
    let rest = incremented user_id cs in
    if c.user_id == user_id then record c { value = c.value + 1 } ∷ cs else c ∷ rest

-- `if role == "user" and attachment_ids`
abbrev pub bind_if_user : ℕ → Draft → MessageRecord → Db → Result MemoryError (MessageRecord × Db)
bind_if_user now d r db =
    if d.role == "user"
    then elim (bind_ready_attachments now r d.attachment_ids db) [
      | ok after ↦ ok (r, after)
      | err e ↦ err e
    ]
    else ok (r, db)

abbrev pub counted : ℕ → ℕ → SessionRecord → SessionRecord
counted now sequence_no s = record s {
  message_count = s.message_count + 1;
  last_sequence = sequence_no;
  last_active_at = now;
}

-- The request is known: its message is returned, with the documents that it lacked.
abbrev pub repeated : ℕ → Draft → MessageRow → Db → Result MemoryError (MessageRecord × Db)
repeated now d m db =
    if not (m.session_id == d.session_id)
    then err other_session
    else if d.role == "assistant" && (is_some d.answer_document || is_some d.presentation_document)
    then bind_if_user now d (from_row false (filled d m))
        (with_messages db (update_where (has_message_id m.message_id) (filled d) db.messages))
    else bind_if_user now d (from_row false m) db

module _ (redact_sensitive_text : String → String) (raw_message_retention_days : ℕ) where
  abbrev pub new_message : ℕ → ℕ → Draft → MessageRow
  new_message now sequence_no d = record {
    message_id = d.message_id;
    request_id = d.request_id;
    turn_id = d.turn_id;
    session_id = d.session_id;
    user_id = d.user_id;
    sequence_no = sequence_no;
    role = d.role;
    content = redact_sensitive_text d.content;
    content_type = d.content_type;
    token_count = d.token_count;
    created_at = now;
    retention_until = now + max raw_message_retention_days 1 * 86400;
    deleted_at = none;
    answer_document = d.answer_document;
    presentation_document = d.presentation_document;
  }

  abbrev pub inserted_db : ℕ → Draft → SessionRecord → Db → Db
  inserted_db now d s db = record db {
    messages = db.messages ++ new_message now (s.last_sequence + 1) d ∷ [];
    sessions =
        update_where (is_session d.session_id) (counted now (s.last_sequence + 1)) db.sessions;
    versions = incremented d.user_id db.versions;
    statistics = incremented d.user_id db.statistics;
  }

  abbrev pub appended : ℕ → Draft → SessionRecord → Db → Result MemoryError (MessageRecord × Db)
  appended now d s db =
      if any (has_message_id d.message_id) db.messages
      then err duplicate_key
      else bind_if_user now d (from_row true (new_message now (s.last_sequence + 1) d))
          (inserted_db now d s db)

  unfoldable pub append_message : ℕ → Draft → Db → Result MemoryError (MessageRecord × Db)
  append_message now d db = elim (find_by (is_request d.user_id d.request_id d.role) db.messages) [
    | some m ↦ repeated now d m db
    | none ↦ elim (find_by (is_open_session d.user_id d.session_id) db.sessions) [
      | none ↦ err closed_session
      | some s ↦ appended now d s db
    ]
  ]
