-- ===== src/Verdict/Tests.antt =====
-- A verdict of evaluation/decision.py, and the theorems about it.
use hommey.Verdict.{JudgeResult, RuleResult, critical, decide, grade, pass}
use hommey.Verdict.Grades.{decide_caps, is_pass, is_warning}
use hommey.Text.{codes}
use hommey.Prelude.{[], arith, false, or_else, refl, some, true, ◌&&◌, ◌||◌, ◌∷◌, ◌≡◌, ◌≤◌}

abbrev leak : RuleResult
leak = record {
  code = "SENSITIVE_DATA_RISK";
  severity = critical;
  message = codes "leak";
  subject_ref = "conversation";
  hard = true;
}

abbrev generous : JudgeResult
generous = record {
  verdict = pass;
  score = some 97;
  dimensions = ("safety", 4) ∷ [];
  reason_codes = "CLEAR" ∷ "SENSITIVE_DATA_RISK" ∷ [];
  critical_errors = [];
  review_required = false;
  summary = codes "fine";
}

leak_run : (decide (leak ∷ []) (some generous) true).score ≡ some 20
unfolding decide grade
leak_run = refl

decide_caps_example :
    (or_else (decide (leak ∷ []) (some generous) true).score 0 ≤ 20)
    × (((true || true)
          && (is_pass (decide (leak ∷ []) (some generous) true).verdict
              || is_warning (decide (leak ∷ []) (some generous) true).verdict))
        ≡ false)
decide_caps_example = decide_caps (leak ∷ []) (some generous) true (omega arith)
