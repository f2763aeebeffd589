-- ===== src/Verdict.antt =====
-- evaluation/decision.py: how the rules and an optional judge make the verdict on a turn.
pub mod Grades
mod Tests
use hommey.Text.{Text, codes, is_nonempty, join}
use hommey.Prelude.{
  Bool, Dict, List, Option, String, [], any, false, if◌then◌else◌, is_some, keep, map, min, none,
  not, some, true, ℕ, ◌&&◌, ◌++◌, ◌==◌, ◌||◌, ◌∷◌, String_eq, ℕ_eq,
}

-- Literals of evaluation/models.py
pub data Severity : Type 0 where
  info low medium high critical : Severity

pub data Verdict : Type 0 where
  pass warning fail critical_fail unscored : Verdict

pub record RuleResult : Type 0 where
  pub code : String
  pub severity : Severity
  pub message : Text
  pub subject_ref : String
  pub hard : Bool

pub record JudgeResult : Type 0 where
  pub verdict : Verdict
  pub score : Option ℕ
  pub dimensions : Dict ℕ
  pub reason_codes : List String
  pub critical_errors : List String
  pub review_required : Bool
  pub summary : Text

pub record FinalEvaluationResult : Type 0 where
  pub verdict : Verdict
  pub score : Option ℕ
  pub dimension_scores : Dict ℕ
  pub reason_codes : List String
  pub critical_errors : List String
  pub rule_results : List RuleResult
  pub explanation : Text
  pub review_required : Bool

abbrev pub is_critical : RuleResult → Bool
is_critical r = elim r.severity [ critical ↦ true | _ ↦ false ]

abbrev pub is_incomplete : RuleResult → Bool
is_incomplete r = r.code == "METADATA_INCOMPLETE"

-- `has_hard_failure` of evaluation/rules.py
abbrev pub has_hard_failure : List RuleResult → Bool
has_hard_failure rules = any (λ r. r.hard) rules

-- list(dict.fromkeys(xs))
unfoldable pub unique : List String → List String
unique [] = []
unique (x ∷ xs) = x ∷ keep (λ y. not (y == x)) (unique xs)

-- The judge's score under a ceiling, and a score for where there is none.
abbrev pub capped : Option JudgeResult → ℕ → ℕ → ℕ
capped none ceiling default = default
capped (some j) ceiling default = elim j.score [ none ↦ default | some n ↦ min n ceiling ]

abbrev pub with_judge : List RuleResult → Option JudgeResult → Bool → Verdict × Option ℕ
with_judge rules (some j) judge_expected = (j.verdict, j.score)
with_judge rules none judge_expected =
    if judge_expected
    then (unscored, none)
    else if is_nonempty rules
    then (warning, some 75)
    else (pass, some 100)

-- The verdict and the score.
unfoldable pub grade : List RuleResult → Option JudgeResult → Bool → Verdict × Option ℕ
grade rules judge judge_expected =
    if any is_critical rules
    then (critical_fail, some (capped judge 20 0))
    else if has_hard_failure rules
    then (fail, some (capped judge 49 40))
    else if any is_incomplete rules
    then (unscored, none)
    else with_judge rules judge judge_expected

abbrev from_judge {ℓ} : {A : Type ℓ} → Option JudgeResult → A → (JudgeResult → A) → A
from_judge none d f = d
from_judge (some j) d f = f j

abbrev pub judge_codes : Option JudgeResult → List String
judge_codes judge = from_judge judge [] (λ j. j.reason_codes)

abbrev explained : List RuleResult → Text
explained [] = codes "确定性规则检查完成。"
explained (r ∷ rs) = join (0xff1b ∷ []) (map (λ x. x.message) (r ∷ rs))

unfoldable pub decide : List RuleResult → Option JudgeResult → Bool → FinalEvaluationResult
unfolding unique grade join
decide rules judge judge_expected = record {
  verdict = (grade rules judge judge_expected).0;
  score = (grade rules judge judge_expected).1;
  dimension_scores = from_judge judge [] (λ j. j.dimensions);
  reason_codes = unique (map (λ r. r.code) rules ++ judge_codes judge);
  critical_errors =
      unique (
        map (λ r. r.code) (keep is_critical rules) ++ from_judge judge [] (λ j. j.critical_errors));
  rule_results = rules;
  explanation = from_judge judge (explained rules) (λ j. j.summary);
  review_required =
      any is_critical rules
      || any is_incomplete rules
      || not (is_some judge) && judge_expected
      || from_judge judge false (λ j. j.review_required);
}
