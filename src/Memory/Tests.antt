-- ===== src/Memory/Tests.antt =====
-- The memory of one user, at concrete values.
use hommey.Memory.Attachments.{bind_ready_attachments}
use hommey.Memory.Recorded.{append-get_recorded_response}
use hommey.Memory.Rows.{Db, from_row, MessageRecord, session_not_found}
use hommey.Memory.Sessions.{
  create_session, insert_session, resume_session, rotate_session, is_owned,
}
use hommey.Memory.Messages.{Draft, append_message, new_message}
use hommey.Memory.Appending.{AreOrdered, rows_of, append-AreOrdered}
use hommey.Memory.Reach.{Call, appends, calls-AreOrdered, creates, resumes, rotates, run_calls}
use hommey.Memory.Service
use hommey.Memory.Reading.{delete_chat_session, get_message_version, get_messages}
use hommey.Memory.Order.{later-IsOrdered}
use hommey.Memory.Newest.{of_session}
use hommey.Memory.Gone.{deleted-gone, is_inserted}
use hommey.Memory.Retry.{append-again, append-get_messages, retried}
use hommey.Memory.Answers.{ending, told}
use hommey.Memory.Service.{get_recent_context, get_recorded_response}
use hommey.Memory.Coherence.{
  Event, IsCoherent, asks, calls, loses_list, loses_version, run_events, says,
}
use hommey.Memory.Events.{get_recent_context-told}
use hommey.Memory.Effects.{said}
use hommey.ShortTerm.{Cache}
use hommey.Prelude.{
  List, Option, String, [], any, arith, err, false, if◌then◌else◌, map, none, ok, refl, some, true,
  ℕ, ◌++◌, ◌==◌, ◌∷◌, ◌≡◌, String_eq, ℕ_eq,
}

abbrev scrub : String → String
scrub text = if text == "password: 1234" then "[REDACTED:SECRET]" else text

abbrev draft : String → String → String → String → Draft
draft id request role content = record {
  message_id = id;
  user_id = "u";
  session_id = "s";
  role = role;
  content = content;
  request_id = request;
  turn_id = "t";
  content_type = "text";
  token_count = none;
  attachment_ids = [];
  answer_document = none;
  presentation_document = none;
}

abbrev question : Draft
question = draft "m1" "r1" "user" "password: 1234"

abbrev answer : Draft
answer = record (draft "m2" "r1" "assistant" "noted") { answer_document = some "{}" }

abbrev empty : Db
empty = record {
  sessions = [];
  messages = [];
  versions = [];
  statistics = [];
  attachments = [];
  links = [];
}

empty-AreOrdered : AreOrdered 10 empty
empty-AreOrdered = record { order = tt; counting = tt; placed = tt; unique = λ sid. omega arith }

abbrev history : List (ℕ × Call)
history =
    (1, creates "s" "u")
    ∷ (1, creates "s" "v")
    ∷ (1, appends question)
    ∷ (2, appends answer)
    ∷ (3, appends answer)
    ∷ (1, rotates "s2" "u" "manual")
    ∷ (1, resumes "u" "s")
    ∷ []

abbrev after : ℕ × Db
after = run_calls scrub 14 10 history empty

-- The second session "s" is refused, and the second answer is a retry.
numbers : map (λ m. m.sequence_no) after.1.messages ≡ 1 ∷ 2 ∷ []
unfolding create_session insert_session append_message from_row rotate_session resume_session
    bind_ready_attachments
numbers = refl

calls-AreOrdered_example : AreOrdered 20 after.1
calls-AreOrdered_example = calls-AreOrdered scrub 14 history 10 empty empty-AreOrdered

abbrev opened : Db
opened = (run_calls scrub 14 10 ((1, creates "s" "u") ∷ []) empty).1

opened-AreOrdered : AreOrdered 12 opened
opened-AreOrdered =
    let o = calls-AreOrdered scrub 14 ((1, creates "s" "u") ∷ []) 10 empty empty-AreOrdered in
    later-IsOrdered 11 12 opened.sessions opened.messages (omega arith) o

abbrev first : MessageRecord
first = from_row true (new_message scrub 14 12 1 question)

abbrev asked : Db
asked = rows_of opened (append_message scrub 14 12 question opened)

asked_is : append_message scrub 14 12 question opened ≡ ok (first, asked)
unfolding create_session insert_session append_message from_row bind_ready_attachments
asked_is = refl

first_inserted : first.inserted ≡ true
unfolding from_row
first_inserted = refl

asked-AreOrdered : AreOrdered 12 asked
asked-AreOrdered = append-AreOrdered scrub 14 12 question opened opened-AreOrdered

asked_there : any (is_owned "u" "s") asked.sessions ≡ true
unfolding create_session insert_session append_message from_row bind_ready_attachments
asked_there = refl

append-again_example :
    append_message scrub 14 20 (retried "m9" "again" question) asked
    ≡ ok (record first { inserted = false }, asked)
append-again_example =
    append-again scrub 14 12 20 "m9" "again" question first opened asked asked_is first_inserted
      refl

append-get_messages_example :
    (get_messages "u" none (of_session "s" none) asked
      ≡ get_messages "u" none (of_session "s" none) opened
        ++ new_message scrub 14 12 first.sequence_no question ∷ [])
    × (from_row true (new_message scrub 14 12 first.sequence_no question) ≡ first)
append-get_messages_example =
    append-get_messages scrub 14 12 question first opened asked opened-AreOrdered asked_is
      first_inserted

abbrev happened : List (ℕ × Event)
happened =
    (1, says true question)
    ∷ (1, says false answer)
    ∷ (0, asks true true none)
    ∷ (1, calls (rotates "s2" "u" "manual"))
    ∷ (1, says true answer)
    ∷ (5, loses_list)
    ∷ (1, loses_version)
    ∷ []

abbrev isoformat : ℕ → String
isoformat n = "1970-01-01T00:00:00"

abbrev metadata_of : String → String → Option ℕ → String
metadata_of request turn number = request

opened-IsCoherent :
    IsCoherent isoformat metadata_of scrub 14 2 "u" "s" 12 opened
      (record { messages = []; message_version = 0 })
unfolding create_session insert_session get_message_version
opened-IsCoherent = record {
  ordered = opened-AreOrdered;
  counted = omega arith;
  within = omega arith;
  suffix = λ e. (0, refl);
}

abbrev settled : Db × Cache
settled =
    (run_events isoformat metadata_of scrub 14 2 "u" "s" 12 happened
      (opened, record { messages = []; message_version = 0 })).1

get_recent_context-told_example :
    map told
      (Service.get_recent_context isoformat metadata_of scrub 14 2 "u" "s" true true
        (some 1)
        settled).0
    ≡ ending 2 (map said (get_messages "u" none (of_session "s" none) settled.0))
get_recent_context-told_example =
    get_recent_context-told isoformat metadata_of scrub 14 2 "u" "s" happened 12
      (opened, record { messages = []; message_version = 0 }) true true (some 1)
      (refl, (refl, (tt, (tt, (refl, (tt, (tt, tt))))))) opened-IsCoherent

deleted-gone_example :
    (resume_session "u" "s"
        (run_calls scrub 14 12
          ((1, resumes "u" "s") ∷ (1, appends answer) ∷ [])
          (delete_chat_session 12 "u" "s" asked)).1
      ≡ err session_not_found)
    × (is_inserted (
          append_message scrub 14 30 question
            (run_calls scrub 14 12
              ((1, resumes "u" "s") ∷ (1, appends answer) ∷ [])
              (delete_chat_session 12 "u" "s" asked)).1)
        ≡ false)
deleted-gone_example =
    deleted-gone "u" "s" scrub 14 12 30 ((1, resumes "u" "s") ∷ (1, appends answer) ∷ []) question
      asked asked-AreOrdered asked_there (tt, (tt, tt)) refl refl

abbrev answered : Db
answered = rows_of asked (append_message scrub 14 14 answer asked)

abbrev second : MessageRecord
second = from_row true (new_message scrub 14 14 2 answer)

answered_is : append_message scrub 14 14 answer asked ≡ ok (second, answered)
unfolding create_session insert_session append_message from_row bind_ready_attachments
answered_is = refl

second_inserted : second.inserted ≡ true
unfolding from_row
second_inserted = refl

append-get_recorded_response_example : get_recorded_response "u" "s" "r1" answered ≡ some "noted"
append-get_recorded_response_example =
    append-get_recorded_response scrub 14 14 answer second asked answered
      (later-IsOrdered 12 14 asked.sessions asked.messages (omega arith) asked-AreOrdered)
      answered_is second_inserted refl refl
