-- ===== src/Evaluation/Rules.antt =====
-- evaluation/rules.py: the deterministic checks on a turn.
use hommey.Verdict.{RuleResult, Severity, critical, high, medium}
use hommey.Evaluation.Metadata.{
  PreviousMessage, TerminalState, TurnEvaluationFacts, TurnEvaluationMetadata, completed, degraded,
  waiting_user,
}
use hommey.Evaluation.Patterns.{
  definite_amount, find_all, identity_number, normalized_question, secret_assignment,
  sensitive_patterns,
}
use hommey.Text.{Text, codes, join, is_nonempty, text_eqb}
use hommey.Prelude.{
  Bool, List, Option, String, [], any, concat, elem, false, if◌then◌else◌, keep, ltb, map, none,
  not, or_else, some, true, ◌&&◌, ◌++◌, ◌==◌, ◌||◌, ◌∷◌, String_eq, ℕ_eq,
}

unfoldable pub policy_skills : List String
policy_skills = "ask-question" ∷ "check-trip-compliance" ∷ "plan-trip" ∷ []

-- `_rule`
abbrev pub rule : String → Severity → Text → String → Bool → RuleResult
rule code severity message subject_ref hard = record {
  code = code;
  severity = severity;
  message = message;
  subject_ref = subject_ref;
  hard = hard;
}

-- The rule, if its condition holds.
abbrev pub rule_if : Bool → RuleResult → List RuleResult
rule_if b r = if b then r ∷ [] else []

abbrev pub text_elem : Text → List Text → Bool
text_elem t [] = false
text_elem t (u ∷ us) = text_eqb t u || text_elem t us

-- `_new_sensitive_fragments`
unfoldable pub new_sensitive_fragments : Text → Text → List Text
unfolding find_all identity_number secret_assignment
new_sensitive_fragments user_text assistant_text =
    let user_matches = concat (map (λ p. find_all p none 0 user_text) sensitive_patterns) in
    keep (λ m. not (text_elem m user_matches))
      (concat (map (λ p. find_all p none 0 assistant_text) sensitive_patterns))

abbrev is_assistant : PreviousMessage → Bool
is_assistant m = elim m.role [ none ↦ false | some r ↦ r == "assistant" ]

-- `_repeats_previous_question`
unfoldable pub repeats_previous_question : TurnEvaluationMetadata → Bool
unfolding normalized_question
repeats_previous_question m =
    let current = normalized_question m.conversation.assistant_message in
    is_nonempty current
    && text_elem current (
        keep is_nonempty (
          map (λ p. normalized_question (or_else p.content []))
            (keep is_assistant m.conversation.previous_messages)))

abbrev pub intersects : List String → List String → Bool
intersects xs ys = any (λ x. elem x ys) xs

abbrev pub is_finished : TerminalState → Bool
is_finished completed = true
is_finished degraded = true
is_finished _ = false

abbrev pub is_completed : TerminalState → Bool
is_completed completed = true
is_completed _ = false

abbrev pub is_waiting : TerminalState → Bool
is_waiting waiting_user = true
is_waiting _ = false

abbrev pub is_timeout : String → Bool
is_timeout code = code == "REQUEST_TIMEOUT" || code == "REQUEST_EXECUTION_TIMEOUT"

-- The answer is one that needs evidence.
unfoldable pub needs_evidence : TurnEvaluationFacts → Bool
unfolding policy_skills
needs_evidence f = intersects policy_skills f.selected_skills && is_finished f.terminal_state

comma_join : List String → Text
comma_join xs = join (codes ", ") (map codes xs)

unfoldable pub schema_rule : RuleResult
schema_rule =
    rule "ANSWER_SCHEMA_INVALID" high (codes "AnswerDocument 不符合展示契约。") "answer.answer_document"
      true

unfoldable pub agent_rule : TurnEvaluationFacts → RuleResult
unfolding comma_join join
agent_rule f =
    rule "AGENT_EXECUTION_ERROR" high
      (codes "Agent 执行失败：" ++ (comma_join f.failed_agents ++ codes "。")) "execution.agent_results"
      true

unfoldable pub timeout_rule : RuleResult
timeout_rule = rule "REQUEST_TIMEOUT" high (codes "主流程请求超时。") "execution.error_codes" true

unfoldable pub unknown_rule : RuleResult
unknown_rule =
    rule "SHOULD_RETURN_UNKNOWN" critical (codes "没有证据时给出了确定的政策金额，应返回未知或请求核验。")
      "conversation.assistant_message" true

unfoldable pub source_rule : RuleResult
source_rule = rule "SOURCE_MISSING" high (codes "政策或合规结论没有随快照提供来源证据。") "evidence.items" true

unfoldable pub link_rule : RuleResult
link_rule = rule "EVIDENCE_NOT_LINKED" medium (codes "答案含来源，但没有可长期复核的证据快照。") "answer.sources" false

unfoldable pub slot_rule : TurnEvaluationFacts → RuleResult
unfolding comma_join join
slot_rule f =
    rule "REQUIRED_SLOT_MISSING" high
      (codes "行程完成态仍缺少字段：" ++ (comma_join f.missing_fields ++ codes "。")) "execution.agent_results"
      true

unfoldable pub repeat_rule : RuleResult
repeat_rule =
    rule "REPEATED_REQUIRED_SLOT_QUESTION" medium (codes "当前追问与最近一次助手追问重复。")
      "conversation.previous_messages" false

unfoldable pub leak_rule : RuleResult
leak_rule =
    rule "SENSITIVE_DATA_RISK" critical (codes "助手回答中出现用户输入未包含的高风险敏感信息模式。")
      "conversation.assistant_message" true

unfoldable pub incomplete_rule : RuleResult
incomplete_rule =
    rule "METADATA_INCOMPLETE" medium (codes "评测快照缺少关键字段或发生截断。") "metadata_truncated" false

-- The branches of `run_rules` on evidence.
unfoldable pub evidence_rules : TurnEvaluationMetadata → TurnEvaluationFacts → List RuleResult
unfolding needs_evidence definite_amount unknown_rule source_rule link_rule
evidence_rules m f =
    if needs_evidence f && f.source_count == 0 && f.evidence_count == 0
    then (if definite_amount m.conversation.assistant_message
        then unknown_rule ∷ []
        else source_rule ∷ [])
    else rule_if (needs_evidence f && not (f.source_count == 0) && f.evidence_count == 0) link_rule

-- `validates` is whether `AnswerDocument.model_validate` takes a document.
module _ (validates : String → Bool) where
  abbrev pub is_invalid : Option String → Bool
  is_invalid none = false
  is_invalid (some d) = not (validates d)

  unfoldable pub run_rules : TurnEvaluationMetadata → TurnEvaluationFacts → List RuleResult
  run_rules m f =
      rule_if (is_invalid m.answer.answer_document) schema_rule
      ++ (rule_if (is_nonempty f.failed_agents) (agent_rule f)
          ++ (rule_if (any is_timeout f.error_codes) timeout_rule
              ++ (evidence_rules m f
                  ++ (rule_if
                        (is_completed f.terminal_state
                          && elem "plan-trip" f.selected_skills
                          && is_nonempty f.missing_fields)
                        (slot_rule f)
                      ++ (rule_if (is_waiting f.terminal_state && repeats_previous_question m)
                            repeat_rule
                          ++ (rule_if
                                (is_nonempty (
                                  new_sensitive_fragments m.conversation.user_message
                                    m.conversation.assistant_message))
                                leak_rule
                              ++ rule_if (ltb f.metadata_completeness 4 || m.metadata_truncated)
                                  incomplete_rule))))))
