-- ===== src/Evaluation/Metadata.antt =====
-- evaluation/models.py and evaluation/facts.py: the snapshot of a turn, and the facts read from it.
use hommey.Verdict.{unique}
use hommey.Text.{Text, is_nonempty}
use hommey.Prelude.{
  Bool, Dict, List, Option, String, [], concat, count, elem, false, if◌then◌else◌, is_some, keep,
  length, lookup, map, none, not, or_else, some, true, values, ℕ, ◌&&◌, ◌==◌, ◌||◌, ◌∷◌, String_eq,
  ℕ_eq,
}

pub data TerminalState : Type 0 where
  completed waiting_user degraded failed interrupted idempotent_replay : TerminalState

pub record EvaluationSubject : Type 0 where
  pub request_id : String
  pub session_id : String
  pub run_id : String
  pub turn_id : String
  pub occurred_at : ℕ

-- A message of `previous_messages`: the role and the content, absent keys as `none`.
pub record PreviousMessage : Type 0 where
  pub role : Option String
  pub content : Option Text

pub record ConversationSnapshot : Type 0 where
  pub user_message : Text
  pub assistant_message : Text
  pub previous_messages : List PreviousMessage

pub record RoutingSnapshot : Type 0 where
  pub intents : List String
  pub selected_skills : List String

-- What facts.py reads of an agent's result; an absent list is the empty one.
pub record AgentResult : Type 0 where
  pub agent_name : Option String
  pub status : Option String
  pub missing_info : List String
  pub present_fields : List String

pub record ExecutionSnapshot : Type 0 where
  pub terminal_state : TerminalState
  pub paused : Bool
  pub interrupted : Bool
  pub tasks : List String
  pub agent_results : List AgentResult
  pub timings : Dict ℕ
  pub error_codes : List String

-- Documents, sources and evidence items are JSON texts.
pub record AnswerSnapshot : Type 0 where
  pub answer_document : Option String
  pub presentation_document : Option String
  pub sources : List String

pub record EvidenceSnapshot : Type 0 where
  pub retrieval_trace_ids : List String
  pub items : List String

pub record ProducerVersions : Type 0 where
  pub git_revision : String
  pub production_model : String
  pub intent_prompt_version : String
  pub composer_prompt_version : String
  pub skill_versions : Dict String
  pub rag_index_version : String

pub data CaptureMode : Type 0 where
  live reconciled offline : CaptureMode

pub data ContextQuality : Type 0 where
  full reduced : ContextQuality

pub record TurnEvaluationMetadata : Type 0 where
  pub schema_version : String
  pub subject : EvaluationSubject
  pub conversation : ConversationSnapshot
  pub routing : RoutingSnapshot
  pub execution : ExecutionSnapshot
  pub answer : AnswerSnapshot
  pub evidence : EvidenceSnapshot
  pub versions : ProducerVersions
  pub capture_mode : CaptureMode
  pub evaluation_context_quality : ContextQuality
  pub metadata_truncated : Bool
  pub truncated_fields : List String

pub data AnswerKind : Type 0 where
  answer_document presentation_document text nothing : AnswerKind

pub record TurnEvaluationFacts : Type 0 where
  pub primary_intent : String
  pub selected_skills : List String
  pub successful_agents : List String
  pub failed_agents : List String
  pub terminal_state : TerminalState
  pub answer_kind : AnswerKind
  pub required_fields : List String
  pub present_fields : List String
  pub missing_fields : List String
  pub source_count : ℕ
  pub evidence_count : ℕ
  pub error_codes : List String
  pub total_latency : Option ℕ
  pub metadata_completeness : ℕ  -- in fifths

abbrev pub trip_fields : List String
trip_fields =
    "origin" ∷ "destination" ∷ "start_date" ∷ "end_date" ∷ "purpose" ∷ "work_location" ∷ []

-- `_unique`
unfoldable pub unique_nonempty : List String → List String
unfolding unique
unique_nonempty values = unique (keep (λ v. not (v == "")) values)

abbrev pub has_status : String → AgentResult → Bool
has_status s r = elim r.status [ none ↦ false | some t ↦ t == s ]

-- str(item.get("agent_name"))
abbrev pub name_of : AgentResult → String
name_of r = or_else r.agent_name "None"

abbrev pub answer_kind_of : TurnEvaluationMetadata → AnswerKind
answer_kind_of m =
    if is_some m.answer.answer_document
    then answer_document
    else if is_some m.answer.presentation_document
    then presentation_document
    else if is_nonempty m.conversation.assistant_message
    then text
    else nothing

abbrev pub is_full : ContextQuality → Bool
is_full full = true
is_full reduced = false

abbrev pub completeness_checks : TurnEvaluationMetadata → List Bool
completeness_checks m =
    is_nonempty m.conversation.user_message
    ∷ (is_nonempty m.conversation.assistant_message || m.execution.interrupted)
    ∷ is_nonempty m.routing.intents
    ∷ not (m.versions.production_model == "")
    ∷ (not m.metadata_truncated && is_full m.evaluation_context_quality)
    ∷ []

abbrev pub first_of : List String → String
first_of [] = ""
first_of (x ∷ xs) = x

unfoldable pub extract_facts : TurnEvaluationMetadata → TurnEvaluationFacts
unfolding unique_nonempty lookup
extract_facts m = record {
  primary_intent = first_of m.routing.intents;
  selected_skills = m.routing.selected_skills;
  successful_agents =
      unique_nonempty (map name_of (keep (has_status "success") m.execution.agent_results));
  failed_agents =
      unique_nonempty (map name_of (keep (has_status "error") m.execution.agent_results));
  terminal_state = m.execution.terminal_state;
  answer_kind = answer_kind_of m;
  required_fields = if elem "plan-trip" m.routing.selected_skills then trip_fields else [];
  present_fields = unique_nonempty (concat (map (λ r. r.present_fields) m.execution.agent_results));
  missing_fields = unique_nonempty (concat (map (λ r. r.missing_info) m.execution.agent_results));
  source_count = length m.answer.sources;
  evidence_count = length m.evidence.items;
  error_codes = m.execution.error_codes;
  total_latency = lookup "total" m.execution.timings;
  metadata_completeness = count (λ b. b) (completeness_checks m);
}
