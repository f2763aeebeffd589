-- ===== src/Evaluation/Verdicts.antt =====
-- The verdict on a turn: evaluation/decision.py over the checks of evaluation/rules.py.
use hommey.Verdict.{
  RuleResult, is_critical, has_hard_failure, is_incomplete, JudgeResult, Verdict, decide, grade,
  with_judge,
}
use hommey.Evaluation.Metadata.{TurnEvaluationFacts, TurnEvaluationMetadata}
use hommey.Evaluation.Rules.{
  evidence_rules, is_completed, needs_evidence, new_sensitive_fragments, rule_if, agent_rule,
  incomplete_rule, is_invalid, is_timeout, leak_rule, link_rule, repeat_rule, run_rules,
  schema_rule, slot_rule, source_rule, timeout_rule, unknown_rule,
}
use hommey.Evaluation.Patterns.{definite_amount}
use hommey.Text.{is_nonempty, Text_eq}
use hommey.Prelude.{
  Bool, Bool-cases, List, Option, String, [], and_false, and_true, any, arith, elem, false,
  if◌then◌else◌, inl, inr, ltb, or_false, refl, true, ℕ, ◌&&◌, ◌++◌, ◌==◌, ◌||◌, ◌∷◌, ◌≡◌,
  String_eq, ℕ_eq,
}

any-rule_if :
    (p : RuleResult → Bool) (b : Bool) (r : RuleResult) (rs : List RuleResult)
    → any p (rule_if b r ++ rs) ≡ (b && p r || any p rs)
any-rule_if p true r rs = ground arith
any-rule_if p false r rs = refl

any-last : (p : RuleResult → Bool) (b : Bool) (r : RuleResult) → any p (rule_if b r) ≡ (b && p r)
any-last p true r = ground arith
any-last p false r = refl

any-append :
    (p : RuleResult → Bool) (rs ss : List RuleResult) → any p (rs ++ ss) ≡ (any p rs || any p ss)
any-append p [] ss = refl
any-append p (r ∷ rs) ss = ground (arith, any-append p rs ss)

if-verdict :
    (b : Bool) (p q : Verdict × Option ℕ) → (if b then p else q).0 ≡ (if b then p.0 else q.0)
if-verdict true p q = refl
if-verdict false p q = refl

-- The answer states an amount, as a finished answer that needs evidence, and there is none.
abbrev pub is_ungrounded : TurnEvaluationMetadata → TurnEvaluationFacts → Bool
is_ungrounded m f =
    needs_evidence f
    && f.source_count == 0
    && f.evidence_count == 0
    && definite_amount m.conversation.assistant_message

-- The answer shows sensitive data that the question did not hold.
abbrev pub leaks : TurnEvaluationMetadata → Bool
leaks m =
    is_nonempty
      (new_sensitive_fragments m.conversation.user_message m.conversation.assistant_message)

abbrev pub is_unfinished : TurnEvaluationFacts → Bool
is_unfinished f =
    is_completed f.terminal_state
    && elem "plan-trip" f.selected_skills
    && is_nonempty f.missing_fields

evidence_rules-critical :
    (m : TurnEvaluationMetadata) (f : TurnEvaluationFacts)
    → any is_critical (evidence_rules m f) ≡ is_ungrounded m f
unfolding evidence_rules unknown_rule source_rule link_rule
evidence_rules-critical m f =
    elim (Bool-cases (needs_evidence f && f.source_count == 0 && f.evidence_count == 0)) [
      | inl b ↦ elim (Bool-cases (definite_amount m.conversation.assistant_message)) [
        | inl c ↦ ground (arith, b, c)
        | inr c ↦ ground (arith, b, c)
      ]
      | inr b ↦ ground (arith, b)
    ]

evidence_rules-hard :
    (m : TurnEvaluationMetadata) (f : TurnEvaluationFacts)
    → has_hard_failure (evidence_rules m f)
      ≡ (needs_evidence f && f.source_count == 0 && f.evidence_count == 0)
unfolding evidence_rules unknown_rule source_rule link_rule
evidence_rules-hard m f =
    elim (Bool-cases (needs_evidence f && f.source_count == 0 && f.evidence_count == 0)) [
      | inl b ↦ elim (Bool-cases (definite_amount m.conversation.assistant_message)) [
        | inl c ↦ ground (arith, b, c)
        | inr c ↦ ground (arith, b, c)
      ]
      | inr b ↦ ground (arith, b)
    ]

evidence_rules-incomplete :
    (m : TurnEvaluationMetadata) (f : TurnEvaluationFacts)
    → any is_incomplete (evidence_rules m f) ≡ false
unfolding evidence_rules unknown_rule source_rule link_rule
evidence_rules-incomplete m f =
    elim (Bool-cases (needs_evidence f && f.source_count == 0 && f.evidence_count == 0)) [
      | inl b ↦ elim (Bool-cases (definite_amount m.conversation.assistant_message)) [
        | inl c ↦ ground (arith, b, c)
        | inr c ↦ ground (arith, b, c)
      ]
      | inr b ↦ ground (arith, b)
    ]

module _ (validates : String → Bool) (m : TurnEvaluationMetadata) (f : TurnEvaluationFacts) where
  run_rules-critical : any is_critical (run_rules validates m f) ≡ (is_ungrounded m f || leaks m)
  unfolding run_rules schema_rule agent_rule timeout_rule slot_rule repeat_rule leak_rule
      incomplete_rule
  run_rules-critical = simp (
    any-rule_if,
    any-append,
    any-last,
    evidence_rules-critical m f,
    and_false,
    and_true,
    or_false,
  )

  run_rules-hard : has_hard_failure (run_rules validates m f) ≡ (
      is_invalid validates m.answer.answer_document
      || (is_nonempty f.failed_agents
          || (any is_timeout f.error_codes
              || ((needs_evidence f && f.source_count == 0 && f.evidence_count == 0)
                  || (is_unfinished f || leaks m)))))
  unfolding run_rules schema_rule agent_rule timeout_rule slot_rule repeat_rule leak_rule
      incomplete_rule
  run_rules-hard =
      simp
        (any-rule_if, any-append, any-last, evidence_rules-hard m f, and_false, and_true, or_false)

  run_rules-incomplete :
      any is_incomplete (run_rules validates m f)
      ≡ (ltb f.metadata_completeness 4 || m.metadata_truncated)
  unfolding run_rules schema_rule agent_rule timeout_rule slot_rule repeat_rule leak_rule
      incomplete_rule
  run_rules-incomplete =
      simp (any-rule_if, any-append, any-last, evidence_rules-incomplete m f, and_false, and_true)

  -- What fails a turn that is not failed critically.
  abbrev pub has_failed : Bool
  has_failed =
      is_invalid validates m.answer.answer_document
      || (is_nonempty f.failed_agents
          || (any is_timeout f.error_codes
              || ((needs_evidence f && f.source_count == 0 && f.evidence_count == 0)
                  || is_unfinished f)))

  -- The checks and the decision on them, together, from the snapshot: a turn is critically failed
  -- exactly if the answer leaks sensitive data, or states an amount with neither a source nor
  -- evidence where it needs evidence. Otherwise it is failed exactly on an invalid answer document, a
  -- failed agent, a timeout, an answer with neither a source nor evidence where it needs evidence, or
  -- an open slot of a completed trip. Otherwise it is unscored if fewer than four of the five
  -- completeness checks pass or the snapshot was cut; and only otherwise the judge, or its absence,
  -- decides.
  pub decide-run_rules :
      (judge : Option JudgeResult) (judge_expected : Bool)
      → (decide (run_rules validates m f) judge judge_expected).verdict ≡ (
          if is_ungrounded m f || leaks m
          then Verdict.critical_fail
          else if has_failed
          then Verdict.fail
          else if ltb f.metadata_completeness 4 || m.metadata_truncated
          then Verdict.unscored
          else (with_judge (run_rules validates m f) judge judge_expected).0)
  unfolding decide grade
  decide-run_rules judge judge_expected = elim (Bool-cases (is_ungrounded m f || leaks m)) [
    | inl b ↦ rw (run_rules-critical, b) refl
    | inr b ↦
        let l : leaks m ≡ false = ground (arith, b) in
        rw (run_rules-critical, b, run_rules-hard, run_rules-incomplete, l)
          (rw (or_false (is_unfinished f), if-verdict, if-verdict) refl)
  ]
