-- ===== src/Intake/Readiness.antt =====
-- When core/trip_intake.py takes a request as ready.
use hommey.Intake.{
  Days, Parsers, Request, below_zero, conflicts_of, evaluate_trip_intake, invalid_fields_of,
  is_backward, is_filled, is_given, is_mismatch, is_truthy, missing, number, parse_date,
  positive_duration, required_keys, written, is_complete,
}
use hommey.Text.{Text, is_nonempty, strip, empty_of, text_eqb}
use hommey.Prelude.{
  Bool, Bool-cases, Option, String, [], arith, eqb, false, inl, inr, is_none, is_some, keep, length,
  none, not, refl, some, sym, true, ◌&&◌, ◌||◌, ◌∙◌, ◌≡◌,
}

-- A text that is given names a day.
abbrev pub is_dated : Parsers → Text → Bool
is_dated p s = not (is_nonempty s) || is_some (parse_date p s)

-- A request that can be planned: both places are given and differ, there is a purpose, a first day
-- and a last day or a length, every date and length given can be read, and they agree.
abbrev pub is_ready : Parsers → Request → Bool
is_ready p r =
    let start = parse_date p r.start_date in
    let end = parse_date p r.end_date in
    let days = positive_duration p r.duration_days in
    is_nonempty (strip r.origin)
    && is_nonempty (strip r.destination)
    && not (text_eqb (strip r.origin) (strip r.destination))
    && is_nonempty (strip r.trip_purpose)
    && is_some start
    && (is_some end || is_some days)
    && is_dated p r.end_date
    && (not (is_given r.duration_days) || is_some days)
    && not (is_backward start end)
    && not (is_mismatch start end days)

all_five :
    (f : String → Bool)
    → eqb (length (keep f required_keys)) 5
      ≡ (f "origin" && f "destination" && f "start_date" && f "trip_length" && f "trip_purpose")
all_five f = ground arith

parse_date-given : (p : Parsers) (s : Text) → is_some (parse_date p s) ≡ true → is_nonempty s ≡ true
unfolding parse_date
parse_date-given p s h = ground (arith, h)

positive_duration-given :
    (p : Parsers) (d : Days)
    → is_some (positive_duration p d) ≡ true
    → (is_truthy d ≡ true) × (is_given d ≡ true)
unfolding positive_duration
positive_duration-given p missing h = cc
positive_duration-given p below_zero h = cc
positive_duration-given p (number n) h = (ground (arith, h), refl)
positive_duration-given p (written s) h = (ground (arith, h), ground (arith, h))

is_truthy-given : (d : Days) → is_truthy d ≡ true → is_given d ≡ true
is_truthy-given missing h = cc
is_truthy-given below_zero h = refl
is_truthy-given (number n) h = refl
is_truthy-given (written s) h = h

invalid_fields_of-some :
    (p : Parsers) (r : Request)
    → is_nonempty (invalid_fields_of p r) ≡ (
        is_nonempty r.start_date && is_none (parse_date p r.start_date)
        || is_nonempty r.end_date && is_none (parse_date p r.end_date)
        || is_given r.duration_days && is_none (positive_duration p r.duration_days))
unfolding invalid_fields_of
invalid_fields_of-some p r =
    elim (Bool-cases (is_nonempty r.start_date && is_none (parse_date p r.start_date))) [
      | inl a ↦ rw a
      | inr a ↦ elim (Bool-cases (is_nonempty r.end_date && is_none (parse_date p r.end_date))) [
        | inl b ↦ rw (a, b)
        | inr b ↦
            elim (Bool-cases
              (is_given r.duration_days && is_none (positive_duration p r.duration_days))) [
                | inl c ↦ rw (a, b, c)
                | inr c ↦ rw (a, b, c)
              ]
      ]
    ]

conflicts_of-some :
    (p : Parsers) (r : Request)
    → is_nonempty (conflicts_of p r) ≡ (
        is_backward (parse_date p r.start_date) (parse_date p r.end_date)
        || is_mismatch
            (parse_date p r.start_date)
            (parse_date p r.end_date)
            (positive_duration p r.duration_days)
        || is_nonempty (strip r.origin)
          && is_nonempty (strip r.destination)
          && text_eqb (strip r.origin) (strip r.destination))
unfolding conflicts_of
conflicts_of-some p r =
    elim (Bool-cases (is_backward (parse_date p r.start_date) (parse_date p r.end_date))) [
      | inl a ↦ rw a
      | inr a ↦
          elim (Bool-cases (
            is_mismatch (parse_date p r.start_date) (parse_date p r.end_date)
              (positive_duration p r.duration_days))) [
                | inl b ↦ rw (a, b)
                | inr b ↦
                    elim (Bool-cases (
                      is_nonempty (strip r.origin)
                      && is_nonempty (strip r.destination)
                      && text_eqb (strip r.origin) (strip r.destination))) [
                        | inl c ↦ rw (a, b, c)
                        | inr c ↦ rw (a, b, c)
                      ]
              ]
    ]

complete_when :
    (r : Request)
    → (is_complete r [] [] "origin"
        && is_complete r [] [] "destination"
        && is_complete r [] [] "start_date"
        && is_complete r [] [] "trip_length"
        && is_complete r [] [] "trip_purpose")
      ≡ (is_nonempty (strip r.origin)
          && is_nonempty (strip r.destination)
          && is_nonempty r.start_date
          && (is_nonempty r.end_date || is_truthy r.duration_days)
          && is_nonempty (strip r.trip_purpose))
unfolding is_filled
complete_when r = ground arith

is_none-is_some : {A : Type 0} (o : Option A) → is_none o ≡ not (is_some o)
is_none-is_some none = refl
is_none-is_some (some a) = refl

is_ready-invalid :
    (p : Parsers) (r : Request) → is_nonempty (invalid_fields_of p r) ≡ true → is_ready p r ≡ false
is_ready-invalid p r h = ground (
  arith,
  sym h ∙ invalid_fields_of-some p r,
  is_none-is_some (parse_date p r.start_date),
  is_none-is_some (parse_date p r.end_date),
  is_none-is_some (positive_duration p r.duration_days),
)

is_ready-conflict :
    (p : Parsers) (r : Request) → is_nonempty (conflicts_of p r) ≡ true → is_ready p r ≡ false
is_ready-conflict p r h = ground (arith, sym h ∙ conflicts_of-some p r)

is_ready-clean :
    (p : Parsers) (r : Request)
    → is_nonempty (invalid_fields_of p r) ≡ false
    → is_nonempty (conflicts_of p r) ≡ false
    → (is_nonempty (strip r.origin)
        && is_nonempty (strip r.destination)
        && is_nonempty r.start_date
        && (is_nonempty r.end_date || is_truthy r.duration_days)
        && is_nonempty (strip r.trip_purpose))
      ≡ is_ready p r
is_ready-clean p r h k = ground (
  arith,
  sym h ∙ invalid_fields_of-some p r,
  sym k ∙ conflicts_of-some p r,
  is_none-is_some (parse_date p r.start_date),
  is_none-is_some (parse_date p r.end_date),
  is_none-is_some (positive_duration p r.duration_days),
  parse_date-given p r.start_date,
  parse_date-given p r.end_date,
  positive_duration-given p r.duration_days,
  is_truthy-given r.duration_days,
)

and_false : (a b c : Bool) → (b && c) ≡ false → (a && b && c) ≡ false
and_false a b c h = ground (arith, h)

and_true : (a : Bool) → (a && true && true) ≡ a
and_true a = ground arith

-- A request is ready for planning exactly when its places, days and purpose are as `is_ready` says.
pub evaluate_trip_intake-ready :
    (p : Parsers) (r : Request) → (evaluate_trip_intake p r).planning_ready ≡ is_ready p r
unfolding evaluate_trip_intake
evaluate_trip_intake-ready p r =
    let invalid = is_nonempty (invalid_fields_of p r) in
    let conflict = is_nonempty (conflicts_of p r) in
    rw all_five (elim (Bool-cases invalid) [
      | inl i ↦
          and_false _ (not invalid) (not conflict) (ground (arith, i))
          ∙ sym (is_ready-invalid p r i)
      | inr i ↦ elim (Bool-cases conflict) [
        | inl c ↦
            and_false _ (not invalid) (not conflict) (ground (arith, c))
            ∙ sym (is_ready-conflict p r c)
        | inr c ↦
            rw (empty_of (invalid_fields_of p r) i, empty_of (conflicts_of p r) c, complete_when r)
              (and_true _ ∙ is_ready-clean p r i c)
      ]
    ])
