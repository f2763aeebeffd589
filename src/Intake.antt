-- ===== src/Intake.antt =====
-- core/trip_intake.py: whether a trip request is ready for planning.
pub mod Readiness
mod Tests
use hommey.Text.{Text, codes, decimal, is_nonempty, strip, text_eqb}
use hommey.Prelude.{
  Bool, List, Option, String, [], elem, eqb, false, if◌then◌else◌, is_none, keep, length, ltb, map,
  none, not, or_else, some, take, true, ℕ, ◌&&◌, ◌++◌, ◌+◌, ◌-◌, ◌==◌, ◌||◌, ◌∷◌, String_eq, ℕ_eq,
}

-- `duration_days` as it comes in: nothing, a number, or a text.
pub data Days : Type 0 where
  missing below_zero : Days
  number : ℕ → Days
  written : Text → Days

-- The fields of `data`; a missing one is the empty text.
pub record Request : Type 0 where
  pub origin : Text
  pub destination : Text
  pub start_date : Text
  pub end_date : Text
  pub duration_days : Days
  pub trip_purpose : Text
  pub work_location : Text
  pub work_schedule : Text

-- `date.fromisoformat` as the day's ordinal, and `int` of a text; `none` is a `ValueError`, and an
-- integer below one is read as 0.
pub record Parsers : Type 0 where
  pub fromisoformat : Text → Option ℕ
  pub to_int : Text → Option ℕ

pub record InvalidField : Type 0 where
  pub key : String
  pub message : Text

pub record Conflict : Type 0 where
  pub key : String
  pub message : Text
  pub values : List Text

pub record Intake : Type 0 where
  pub missing_info : List String
  pub missing_required : List String
  pub optional_info : List String
  pub invalid_fields : List InvalidField
  pub conflicts : List Conflict
  pub completed_count : ℕ
  pub planning_ready : Bool

-- `_parse_date`
unfoldable pub parse_date : Parsers → Text → Option ℕ
unfolding strip
parse_date p value = if is_nonempty value then p.fromisoformat (take 10 (strip value)) else none

abbrev pub positive : Option ℕ → Option ℕ
positive none = none
positive (some n) = if ltb 0 n then some n else none

-- `_positive_duration`
unfoldable pub positive_duration : Parsers → Days → Option ℕ
positive_duration p missing = none
positive_duration p below_zero = none
positive_duration p (number n) = positive (some n)
positive_duration p (written s) = if is_nonempty s then positive (p.to_int s) else none

-- value not in (None, "")
abbrev pub is_given : Days → Bool
is_given missing = false
is_given (written s) = is_nonempty s
is_given _ = true

-- bool(value)
abbrev pub is_truthy : Days → Bool
is_truthy missing = false
is_truthy below_zero = true
is_truthy (number n) = ltb 0 n
is_truthy (written s) = is_nonempty s

abbrev add_if {ℓ} : {A : Type ℓ} → Bool → A → List A → List A
add_if b x xs = if b then x ∷ xs else xs

unfoldable pub invalid_fields_of : Parsers → Request → List InvalidField
unfolding parse_date positive_duration
invalid_fields_of p r =
    add_if (is_nonempty r.start_date && is_none (parse_date p r.start_date))
      (record { key = "start_date"; message = codes "没有识别出明确的出发日期，请换一种日期表达。" })
      (add_if (is_nonempty r.end_date && is_none (parse_date p r.end_date))
        (record { key = "trip_length"; message = codes "没有识别出明确的返程日期，请填写日期或出差天数。" })
        (add_if (is_given r.duration_days && is_none (positive_duration p r.duration_days))
          (record { key = "trip_length"; message = codes "出差天数需要是大于 0 的整数。" }) []))

-- str((end - start).days + 1)
abbrev calendar_text : ℕ → ℕ → Text
calendar_text start end =
    if ltb end start
    then (if eqb start (end + 1) then codes "0" else codes "-" ++ decimal (start - end - 1))
    else decimal (end - start + 1)

-- The two tests on the days of travel: the way back comes first, and the length differs.
abbrev pub is_backward : Option ℕ → Option ℕ → Bool
is_backward (some start) (some end) = ltb end start
is_backward _ _ = false

abbrev pub is_mismatch : Option ℕ → Option ℕ → Option ℕ → Bool
is_mismatch (some start) (some end) (some days) = ltb end start || not (eqb (end - start + 1) days)
is_mismatch _ _ _ = false

abbrev day_text : Option ℕ → Option ℕ → Option ℕ → Text
day_text (some start) (some end) _ = calendar_text start end
day_text _ _ _ = []

unfoldable pub conflicts_of : Parsers → Request → List Conflict
unfolding parse_date positive_duration decimal strip
conflicts_of p r =
    let start = parse_date p r.start_date in
    let end = parse_date p r.end_date in
    let days = positive_duration p r.duration_days in
    let origin = strip r.origin in
    let destination = strip r.destination in
    let span = day_text start end days in
    let wanted = decimal (or_else days 0) in
    add_if (is_backward start end)
      (record {
        key = "trip_length";
        message = codes "返程日期早于出发日期，请确认行程时间。";
        values = r.start_date ∷ r.end_date ∷ [];
      })
      (add_if (is_mismatch start end days)
        (record {
          key = "trip_length";
          message = codes "日期跨度为 " ++ span ++ codes " 天，与填写的 " ++ wanted ++ codes " 天不一致。";
          values =
              (codes "按日期计算 " ++ span ++ codes " 天") ∷ (codes "保留 " ++ wanted ++ codes " 天") ∷ [];
        })
        (add_if (is_nonempty origin && is_nonempty destination && text_eqb origin destination)
          (record { key = "destination"; message = codes "出发地和目的地相同，请填写本次出差的实际目的地。"; values = [] })
          []))

abbrev pub required_keys : List String
required_keys = "origin" ∷ "destination" ∷ "start_date" ∷ "trip_length" ∷ "trip_purpose" ∷ []

-- The dict `completed`, before and after the conflicts are taken out.
unfoldable pub is_filled : Request → List String → String → Bool
unfolding strip
is_filled r invalid_keys key =
    if key == "origin"
    then is_nonempty (strip r.origin)
    else if key == "destination"
    then is_nonempty (strip r.destination)
    else if key == "start_date"
    then is_nonempty r.start_date && not (elem key invalid_keys)
    else if key == "trip_length"
    then (is_nonempty r.end_date || is_truthy r.duration_days) && not (elem key invalid_keys)
    else is_nonempty (strip r.trip_purpose)

abbrev pub is_complete : Request → List String → List String → String → Bool
is_complete r invalid_keys conflict_keys key =
    is_filled r invalid_keys key && not (elem key conflict_keys)

unfoldable pub evaluate_trip_intake : Parsers → Request → Intake
unfolding invalid_fields_of conflicts_of is_filled
evaluate_trip_intake p r =
    let invalid_fields = invalid_fields_of p r in
    let conflicts = conflicts_of p r in
    let invalid_keys = map (λ f. f.key) invalid_fields in
    let conflict_keys = map (λ c. c.key) conflicts in
    let completed = is_complete r invalid_keys conflict_keys in
    let missing_required = keep (λ key. not (completed key)) required_keys in
    let completed_count = length (keep completed required_keys) in
    record {
      missing_info =
          map (λ key. if key == "trip_length" then "duration_days_or_end_date" else key)
            (keep (λ key. not (elem key invalid_keys) && not (elem key conflict_keys))
              missing_required);
      missing_required = missing_required;
      optional_info =
          add_if (not (is_nonempty r.work_location)) "work_location"
            (add_if (not (is_nonempty r.work_schedule)) "work_schedule" []);
      invalid_fields = invalid_fields;
      conflicts = conflicts;
      completed_count = completed_count;
      planning_ready =
          eqb completed_count 5 && not (is_nonempty invalid_fields) && not (is_nonempty conflicts);
    }
