-- ===== src/Evaluation/Reconciler.antt =====
-- evaluation/reconciler.py: the rows for answered turns that have none.
use hommey.Evaluation.Metadata.{
  ProducerVersions, TurnEvaluationMetadata, completed, reconciled, reduced, waiting_user,
}
use hommey.Evaluation.Rows.{Db, Message, Subject}
use hommey.Evaluation.Queue.{Evaluator, create_subject_and_run, of_request, order_by}
use hommey.Text.{Text}
use hommey.Prelude.{
  Bool, List, Option, String, [], any, concat, false, if◌then◌else◌, is_some, keep, length, ltb,
  map, max, min, none, not, or_else, some, take, ℕ, ◌&&◌, ◌==◌, ◌∷◌, String_eq, ℕ_eq,
}

-- A row of `missing_turn_subjects`.
pub record MissingTurn : Type 0 where
  pub request_id : String
  pub session_id : String
  pub turn_id : Option String
  pub assistant_message : Text
  pub answer_document : Option (String × List String)
  pub presentation_document : Option String
  pub occurred_at : ℕ
  pub user_message : Option Text

abbrev pub missing_turn : Message → Option Text → MissingTurn
missing_turn a user_message = record {
  request_id = a.request_id;
  session_id = a.session_id;
  turn_id = a.turn_id;
  assistant_message = a.content;
  answer_document = a.answer_document;
  presentation_document = a.presentation_document;
  occurred_at = a.created_at;
  user_message = user_message;
}

abbrev pub asks : Message → Message → Bool
asks a u =
    u.user_id == a.user_id
    && u.request_id == a.request_id
    && u.role == "user"
    && ltb u.sequence_no a.sequence_no

-- LEFT JOIN of the messages that ask
abbrev pub joined : List Message → Message → List MissingTurn
joined ms a = elim (keep (asks a) ms) [
  | [] ↦ missing_turn a none ∷ []
  | u ∷ us ↦ map (λ x. missing_turn a (some x.content)) (u ∷ us)
]

abbrev pub is_missing : List Subject → Message → Bool
is_missing ss a =
    a.role == "assistant" && not a.is_deleted && not (any (of_request a.request_id) ss)

unfoldable pub missing_turn_subjects : ℕ → Db → List MissingTurn
unfolding order_by
missing_turn_subjects limit db = take (max 1 (min limit 1000)) (
    order_by (λ r. r.occurred_at)
      (concat (map (joined db.messages) (keep (is_missing db.subjects) db.messages))))

abbrev sources_of : Option (String × List String) → List String
sources_of none = []
sources_of (some d) = d.1

abbrev json_of : Option (String × List String) → Option String
json_of none = none
json_of (some d) = some d.0

-- `_metadata`
unfoldable pub reconciled_metadata : ProducerVersions → MissingTurn → TurnEvaluationMetadata
reconciled_metadata versions row =
    let waiting = is_some row.presentation_document in
    record {
      schema_version = "eval.turn.input.1";
      subject = record {
        request_id = row.request_id;
        session_id = row.session_id;
        run_id = "";
        turn_id = or_else row.turn_id "";
        occurred_at = row.occurred_at;
      };
      conversation = record {
        user_message = or_else row.user_message [];
        assistant_message = row.assistant_message;
        previous_messages = [];
      };
      routing = record { intents = []; selected_skills = [] };
      execution = record {
        terminal_state = if waiting then waiting_user else completed;
        paused = waiting;
        interrupted = false;
        tasks = [];
        agent_results = [];
        timings = [];
        error_codes = [];
      };
      answer = record {
        answer_document = json_of row.answer_document;
        presentation_document = row.presentation_document;
        sources = sources_of row.answer_document;
      };
      evidence = record { retrieval_trace_ids = []; items = [] };
      versions = versions;
      capture_mode = reconciled;
      evaluation_context_quality = reduced;
      metadata_truncated = false;
      truncated_fields = [];
    }

-- `fresh` gives a request's new subject id, evaluation id and the hash of its payload.
unfoldable pub reconcile_all :
    (String → String × String × String)
    → ProducerVersions
    → ℕ
    → Evaluator
    → List MissingTurn
    → Db
    → Db
unfolding reconciled_metadata
reconcile_all fresh versions now e [] db = db
reconcile_all fresh versions now e (row ∷ rows) db =
    let ids = fresh row.request_id in
    reconcile_all fresh versions now e rows
      (create_subject_and_run now ids.0 ids.1 ids.2 (reconciled_metadata versions row) e db).1

-- `run_once`
unfoldable pub reconcile :
    (String → String × String × String) → ProducerVersions → ℕ → Evaluator → ℕ → Db → ℕ × Db
unfolding reconcile_all missing_turn_subjects
reconcile fresh versions now e limit db =
    let rows = missing_turn_subjects limit db in
    (length rows, reconcile_all fresh versions now e rows db)
