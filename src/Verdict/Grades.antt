-- ===== src/Verdict/Grades.antt =====
-- What a verdict of evaluation/decision.py can be, and the codes that it names.
use hommey.Verdict.{
  JudgeResult, RuleResult, Verdict, decide, grade, has_hard_failure, is_critical, pass, warning,
  judge_codes, unique,
}
use hommey.Prelude.{
  Bool, Bool-cases, List, Option, Option-cases, String, [], any, arith, elem, eq_iff, false,
  if◌then◌else◌, inl, inr, keep, map, none, not, or_else, refl, some, true, ℕ, ◌&&◌, ◌++◌, ◌==◌,
  ◌||◌, ◌∙◌, ◌∷◌, ◌≡◌, ◌≤◌, String_eq, ℕ_eq,
}

-- The highest score that the rules leave.
abbrev pub ceiling : List RuleResult → ℕ
ceiling rules = if any is_critical rules then 20 else if has_hard_failure rules then 49 else 100

abbrev pub is_pass : Verdict → Bool
is_pass pass = true
is_pass _ = false

abbrev pub is_warning : Verdict → Bool
is_warning warning = true
is_warning _ = false

abbrev pub judge_score : Option JudgeResult → ℕ
judge_score none = 0
judge_score (some j) = or_else j.score 0

-- A judge whose score is at most 100 cannot lift a turn over what the rules leave: the score is at
-- most 20 after a critical rule and 49 after a hard one, and no such turn passes or is only warned.
pub decide_caps :
    (rules : List RuleResult) (judge : Option JudgeResult) (expected : Bool)
    → judge_score judge ≤ 100
    → (or_else (decide rules judge expected).score 0 ≤ ceiling rules)
      × (((any is_critical rules || has_hard_failure rules)
            && (is_pass (decide rules judge expected).verdict
                || is_warning (decide rules judge expected).verdict))
          ≡ false)
unfolding decide grade
decide_caps rules none expected h = (ground arith, ground arith)
decide_caps rules (some j) expected h = elim (Option-cases j.score) [
  | inl n ↦ (ground (arith, n, h), ground (arith, n))
  | inr (k, n) ↦ (ground (arith, n, h), ground (arith, n))
]

elem-keep :
    (c x : String) (ys : List String)
    → elem c (keep (λ y. not (y == x)) ys) ≡ (elem c ys && not (c == x))
elem-keep c x [] = refl
elem-keep c x (y ∷ ys) = ground (arith, elem-keep c x ys, eq_iff c x, eq_iff c y, eq_iff y x)

elem-unique : (c : String) (xs : List String) → elem c (unique xs) ≡ elem c xs
unfolding unique
elem-unique c [] = refl
elem-unique c (x ∷ xs) = ground (arith, elem-unique c xs, elem-keep c x (unique xs), eq_iff c x)

elem-append : (c : String) (xs ys : List String) → elem c (xs ++ ys) ≡ (elem c xs || elem c ys)
elem-append c [] ys = refl
elem-append c (x ∷ xs) ys = ground (arith, elem-append c xs ys)

-- No text occurs twice.
abbrev pub Distinct : List String → Type 0
Distinct [] = Unit
Distinct (x ∷ xs) = (elem x xs ≡ false) × Distinct xs

absent-keep :
    (p : String → Bool) (c : String) (xs : List String)
    → elem c xs ≡ false
    → elem c (keep p xs) ≡ false
absent-keep p c [] h = refl
absent-keep p c (x ∷ xs) h = ground (arith, h, absent-keep p c xs)

Distinct-keep : (p : String → Bool) (xs : List String) → Distinct xs → Distinct (keep p xs)
Distinct-keep p [] h = tt
Distinct-keep p (x ∷ xs) h = elim (Bool-cases (p x)) [
  | inl b ↦ rw b (absent-keep p x xs h.0, Distinct-keep p xs h.1)
  | inr b ↦ rw b (Distinct-keep p xs h.1)
]

unique-Distinct : (xs : List String) → Distinct (unique xs)
unfolding unique
unique-Distinct [] = tt
unique-Distinct (x ∷ xs) = (
  ground (arith, elem-keep x x (unique xs), eq_iff x x),
  Distinct-keep (λ y. not (y == x)) (unique xs) (unique-Distinct xs),
)

-- The verdict names exactly the codes of the rules and of the judge, each once.
pub decide_codes :
    (rules : List RuleResult) (judge : Option JudgeResult) (expected : Bool) (code : String)
    → Distinct (decide rules judge expected).reason_codes
      × (elem code (decide rules judge expected).reason_codes
          ≡ (elem code (map (λ r. r.code) rules) || elem code (judge_codes judge)))
unfolding decide
decide_codes rules judge expected code = (
  unique-Distinct (map (λ r. r.code) rules ++ judge_codes judge),
  elem-unique code (map (λ r. r.code) rules ++ judge_codes judge)
      ∙ elem-append code (map (λ r. r.code) rules) (judge_codes judge),
)
