-- ===== src/Memory/Rows.antt =====
-- context/memory_repository.py: the rows of `conversation_sessions`, `conversation_messages` and of
-- the tables that its transactions on them write. Ids are UUIDs, as `stable_uuid` gives them.
use hommey.Prelude.{Bool, List, Option, String, false, true, ℕ}

pub data SessionStatus : Type 0 where
  active closed : SessionStatus

abbrev pub is_active : SessionStatus → Bool
is_active active = true
is_active closed = false

-- Times are seconds.
pub record SessionRecord : Type 0 where
  pub session_id : String
  pub user_id : String
  pub status : SessionStatus
  pub started_at : ℕ
  pub last_active_at : ℕ
  pub closed_at : Option ℕ
  pub close_reason : Option String
  pub message_count : ℕ
  pub last_sequence : ℕ
  pub summary_watermark : ℕ

-- A row. Documents are JSON texts, none for NULL.
pub record MessageRow : Type 0 where
  pub message_id : String
  pub request_id : String
  pub turn_id : String
  pub session_id : String
  pub user_id : String
  pub sequence_no : ℕ
  pub role : String
  pub content : String
  pub content_type : String
  pub token_count : Option ℕ
  pub created_at : ℕ
  pub retention_until : ℕ
  pub deleted_at : Option ℕ
  pub answer_document : Option String
  pub presentation_document : Option String

-- What the methods return: the columns of a row, and whether this call inserted it.
pub record MessageRecord : Type 0 where
  pub message_id : String
  pub request_id : String
  pub turn_id : String
  pub session_id : String
  pub user_id : String
  pub sequence_no : ℕ
  pub role : String
  pub content : String
  pub content_type : String
  pub created_at : ℕ
  pub inserted : Bool

unfoldable pub from_row : Bool → MessageRow → MessageRecord
from_row inserted m = record {
  message_id = m.message_id;
  request_id = m.request_id;
  turn_id = m.turn_id;
  session_id = m.session_id;
  user_id = m.user_id;
  sequence_no = m.sequence_no;
  role = m.role;
  content = m.content;
  content_type = m.content_type;
  created_at = m.created_at;
  inserted = inserted;
}

pub record Attachment : Type 0 where
  pub id : String
  pub user_id : String
  pub is_ready : Bool
  pub expires_at : Option ℕ
  pub session_id : Option String
  pub request_id : Option String

-- A counter of each user: `memory_versions` of the messages, and `user_statistics`.
pub record Counter : Type 0 where
  pub user_id : String
  pub value : ℕ

pub record Db : Type 0 where
  pub sessions : List SessionRecord
  pub messages : List MessageRow
  pub versions : List Counter
  pub statistics : List Counter
  pub attachments : List Attachment
  pub links : List (String × String)

-- The exceptions; the last one is the database's, for a second row with the same primary key.
pub data MemoryError : Type 0 where
  session_not_found other_session closed_session refused_attachment changed_attachments :
      MemoryError
  duplicate_key : MemoryError
