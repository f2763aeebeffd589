-- ===== src/Memory/Reading.antt =====
-- context/memory_repository.py: the methods that read, repair and delete messages, of
-- `PostgresMemoryRepository` and of `PostgresCompatibilityStore`.
use mathlib.Core.List.{reverse}
use hommey.Memory.Rows.{Counter, Db, MessageRow, SessionRecord}
use hommey.Memory.Messages.{filled_in, has_message_id, with_messages}
use hommey.Memory.Sessions.{closed_for, is_owned, is_users, with_sessions}
use hommey.Prelude.{
  Bool, List, Option, String, [], any, false, if◌then◌else◌, is_some, keep, ltb, none, not, some,
  take, true, update_where, ℕ, ◌&&◌, ◌==◌, ◌||◌, ◌∷◌, String_eq, ℕ_eq,
}

-- The filters of `get_messages`.
pub record Filter : Type 0 where
  pub session_id : Option String
  pub exclude_session_id : Option String
  pub request_id : Option String

abbrev pub is_or_none : Option String → String → Bool
is_or_none none x = true
is_or_none (some y) x = x == y

abbrev pub is_not_or_none : Option String → String → Bool
is_not_or_none none x = true
is_not_or_none (some y) x = not (x == y)

abbrev pub is_undeleted : Option ℕ → Bool
is_undeleted none = true
is_undeleted (some t) = false

abbrev pub is_selected : String → Filter → MessageRow → Bool
is_selected user_id f m =
    m.user_id == user_id
    && is_undeleted m.deleted_at
    && is_or_none f.session_id m.session_id
    && is_not_or_none f.exclude_session_id m.session_id
    && is_or_none f.request_id m.request_id

-- ORDER BY created_at DESC, sequence_no DESC
abbrev pub comes_first : MessageRow → MessageRow → Bool
comes_first a b =
    ltb b.created_at a.created_at || a.created_at == b.created_at && ltb b.sequence_no a.sequence_no

unfoldable pub place : MessageRow → List MessageRow → List MessageRow
place m [] = m ∷ []
place m (n ∷ ns) = if comes_first n m then n ∷ place m ns else m ∷ n ∷ ns

unfoldable pub newest_first : List MessageRow → List MessageRow
unfolding place
newest_first [] = []
newest_first (m ∷ ms) = place m (newest_first ms)

-- LIMIT, when it is not 0
abbrev pub limit_rows : Option ℕ → List MessageRow → List MessageRow
limit_rows none ms = ms
limit_rows (some n) ms = if n == 0 then ms else take n ms

unfoldable pub get_messages : String → Option ℕ → Filter → Db → List MessageRow
unfolding newest_first
get_messages user_id limit f db =
    reverse (limit_rows limit (newest_first (keep (is_selected user_id f) db.messages)))

unfoldable pub update_message_documents :
    String → String → Option String → Option String → Db → Bool × Db
update_message_documents user_id message_id answer presentation db =
    let picked : MessageRow → Bool = λ m. m.user_id == user_id && m.message_id == message_id in
    if not (is_some answer || is_some presentation) then (false, db) else (
      any picked db.messages,
      with_messages db (update_where picked (filled_in answer presentation) db.messages),
    )

unfoldable pub get_message_version : String → List Counter → ℕ
get_message_version user_id [] = 0
get_message_version user_id (c ∷ cs) =
    let rest = get_message_version user_id cs in if c.user_id == user_id then c.value else rest

abbrev pub is_in_session : String → String → MessageRow → Bool
is_in_session user_id sid m = m.user_id == user_id && m.session_id == sid

abbrev pub has_message : List MessageRow → String × String → Bool
has_message ms l = any (has_message_id l.0) ms

-- A message's deletion deletes its links. The rows of the other tables that the two methods delete
-- are not modelled.
abbrev pub without_messages : (MessageRow → Bool) → Db → Db
without_messages p db =
    let left = keep (λ m. not (p m)) db.messages in
    record db { messages = left; links = keep (has_message left) db.links }

unfoldable pub delete_chat_session : ℕ → String → String → Db → Db
delete_chat_session now user_id sid db =
    with_sessions (without_messages (is_in_session user_id sid) db)
      (update_where (is_owned user_id sid) (closed_for now "deleted") db.sessions)

abbrev pub cleared_for : ℕ → SessionRecord → SessionRecord
cleared_for now s = record (closed_for now "cleared" s) { summary_watermark = 0 }

unfoldable pub clear_chat_history : ℕ → String → Db → Db
clear_chat_history now user_id db =
    with_sessions (without_messages (λ m. m.user_id == user_id) db)
      (update_where (is_users user_id) (cleared_for now) db.sessions)
