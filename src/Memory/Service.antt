-- ===== src/Memory/Service.antt =====
-- context/memory_service.py: `MemoryService` on PostgreSQL, bound to one session of one user. Its
-- cache is the memory backend of ShortTerm, which the Redis backend refines.
use mathlib.Core.List.{reverse}
use hommey.Memory.Rows.{Db, MemoryError, MessageRecord, MessageRow, SessionRecord}
use hommey.Memory.Messages.{Draft}
use hommey.Memory.Messages
use hommey.Memory.Reading.{Filter, get_message_version, get_messages}
use hommey.Memory.Sessions.{get_session}
use hommey.ShortTerm.{
  Cache, Message, add_message, replace_messages, Statistics, first_time, last_time,
}
use hommey.ShortTerm
use hommey.ShortTerm.Lists.{from_end}
use hommey.Prelude.{
  Bool, List, Option, Result, String, [], err, if◌then◌else◌, leb, length, map, min, none, ok, some,
  ℕ, ◌&&◌, ◌*◌, ◌==◌, ◌∷◌, String_eq, ℕ_eq,
}

abbrev pub count_of : Option SessionRecord → ℕ
count_of none = 0
count_of (some s) = s.message_count

abbrev pub in_session : String → Filter
in_session session_id = record {
  session_id = some session_id;
  exclude_session_id = none;
  request_id = none;
}

-- The metadata that a cached message has: its request, its turn and, when it comes from the
-- database, its number.
module _ (isoformat : ℕ → String) (metadata_of : String → String → Option ℕ → String) where
  unfoldable pub cache_row : MessageRow → ShortTerm.Message
  cache_row m = record {
    role = m.role;
    content = m.content;
    timestamp = isoformat m.created_at;
    metadata = metadata_of m.request_id m.turn_id (some m.sequence_no);
  }

  module _ (redact : String → String) (raw_message_retention_days max_turns : ℕ)
      (user_id session_id : String) where
    -- The draft that the service passes on: the text redacted, the attachments of a user's message
    -- and the documents of an assistant's.
    abbrev pub passed_on : Draft → Draft
    passed_on d = record d {
      user_id = user_id;
      session_id = session_id;
      content = redact d.content;
      attachment_ids = if d.role == "user" then d.attachment_ids else [];
      answer_document = if d.role == "assistant" then d.answer_document else none;
      presentation_document = if d.role == "assistant" then d.presentation_document else none;
    }

    abbrev pub cached_message : ℕ → Draft → MessageRecord → ShortTerm.Message
    cached_message now d r = record {
      role = d.role;
      content = redact d.content;
      timestamp = isoformat now;
      metadata = metadata_of r.request_id r.turn_id none;
    }

    -- `cache_up` tells whether the cache takes the write; an error of it is logged.
    unfoldable pub append_message :
        ℕ → Bool → Draft → Db × Cache → Result MemoryError (MessageRecord × (Db × Cache))
    unfolding Messages.append_message ShortTerm.add_message
    append_message now cache_up d w =
        elim (Messages.append_message redact raw_message_retention_days now (passed_on d) w.0) [
          | err e ↦ err e
          | ok r ↦ ok (
            r.0,
            (
              r.1,
              if r.0.inserted && cache_up
                  then ShortTerm.add_message max_turns (cached_message now d r.0) w.1
                  else w.1,
            ),
          )
        ]

    abbrev pub turns_of : Option ℕ → ℕ
    turns_of none = max_turns
    turns_of (some n) = min n max_turns

    -- The rows of the session that a cache should hold.
    unfoldable pub fresh_rows : Db → List ShortTerm.Message
    unfolding get_messages cache_row
    fresh_rows db =
        map cache_row (get_messages user_id (some (max_turns * 2)) (in_session session_id) db)

    abbrev pub is_usable : Db → Cache → Bool
    is_usable db c =
        leb (min (count_of (get_session user_id session_id db)) (max_turns * 2)) (length c.messages)
        && c.message_version == get_message_version user_id db.versions

    -- `reads` and `writes` tell whether the cache answers the read and takes the replacement.
    unfoldable pub get_recent_context :
        Bool → Bool → Option ℕ → Db × Cache → List ShortTerm.Message × Cache
    unfolding fresh_rows get_session get_message_version ShortTerm.replace_messages from_end
        ShortTerm.get_recent_context
    get_recent_context reads writes n_turns w =
        let limit = turns_of n_turns * 2 in
        let rows = fresh_rows w.0 in
        let cached = ShortTerm.get_recent_context max_turns (some max_turns) w.1 in
        let warm =
          ShortTerm.replace_messages max_turns rows (get_message_version user_id w.0.versions)
            w.1 in
        if limit == 0
        then ([], w.1)
        else if reads && is_usable w.0 w.1
        then (from_end limit cached, w.1)
        else (from_end limit rows, if writes then warm else w.1)

    unfoldable pub get_statistics : Bool → Bool → Db × Cache → ShortTerm.Statistics × Cache
    unfolding get_recent_context get_session get_message_version
    get_statistics reads writes w =
        let answer = get_recent_context reads writes (some max_turns) w in
        (
          record {
            total_messages = count_of (get_session user_id session_id w.0);
            message_version = get_message_version user_id w.0.versions;
            max_turns = max_turns;
            oldest_message_time = ShortTerm.first_time answer.0;
            newest_message_time = ShortTerm.last_time answer.0;
          },
          answer.1,
        )

-- The content of the first message of the assistant, `none` when it is empty.
abbrev pub first_response : List MessageRow → Option String
first_response [] = none
first_response (m ∷ ms) =
    let rest = first_response ms in
    if m.role == "assistant" then (if m.content == "" then none else some m.content) else rest

unfoldable pub get_recorded_response : String → String → String → Db → Option String
unfolding get_messages
get_recorded_response user_id session_id request_id db = first_response (
    reverse (
      get_messages user_id (some 2)
        (record (in_session session_id) { request_id = some request_id }) db))
