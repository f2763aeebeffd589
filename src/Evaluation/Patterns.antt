-- ===== src/Evaluation/Patterns.antt =====
-- The regular expressions of evaluation/rules.py, as matchers on code points.
use hommey.Text.{
  Text, codes, is_decimal, is_nonempty, is_space, strip_of, Text_eq, run_length, skip_spaces,
}
use hommey.Prelude.{
  Bool, List, Option, [], any, drop, false, if◌then◌else◌, keep, leb, length, ltb, none, not,
  or_else, some, suc, take, zero, ℕ, ◌&&◌, ◌+◌, ◌-◌, ◌==◌, ◌||◌, ◌∷◌, String_eq, ℕ_eq,
}

-- How many characters a pattern takes at the start of a text that the given character comes before.
abbrev pub Pattern : Type 0
Pattern = Option ℕ → Text → Option ℕ

-- `finditer`: the matches from left to right, each from where the one before it ends.
unfoldable pub find_all : Pattern → Option ℕ → ℕ → Text → List Text
find_all m before skip [] = []
find_all m before (suc skip) (c ∷ s) = find_all m (some c) skip s
find_all m before zero (c ∷ s) =
    let found = m before (c ∷ s) in
    let rest = find_all m (some c) (or_else found 1 - 1) s in
    elim found [ none ↦ rest | some n ↦ take n (c ∷ s) ∷ rest ]

abbrev pub starts_digit : Text → Bool
starts_digit [] = false
starts_digit (c ∷ s) = is_decimal c

abbrev pub ends_digit : Option ℕ → Bool
ends_digit none = false
ends_digit (some c) = is_decimal c

abbrev pub is_check_digit : Text → Bool
is_check_digit [] = false
is_check_digit (c ∷ s) = leb b'0' c && leb c b'9' || c == b'X' || c == b'x'

-- (?<!\d)\d{17}[0-9Xx](?!\d)
unfoldable pub identity_number : Pattern
unfolding run_length is_decimal
identity_number before s =
    if not (ends_digit before)
      && leb 17 (run_length is_decimal s)
      && is_check_digit (drop 17 s)
      && not (starts_digit (drop 18 s))
    then some 18
    else none

-- A letter as `(?i)` compares it: the long s, the Kelvin sign and two forms of i are letters too.
abbrev pub fold_case : ℕ → ℕ
fold_case c =
    if leb b'A' c && leb c b'Z'
    then c + 32
    else if c == 0x17f
    then b's'
    else if c == 0x212a
    then b'k'
    else if c == 0x130 || c == 0x131
    then b'i'
    else c

-- The text after a word that it starts with.
unfoldable pub after_word : Text → Text → Option Text
after_word [] s = some s
after_word (c ∷ w) [] = none
after_word (c ∷ w) (d ∷ s) = if fold_case d == c then after_word w s else none

-- api[_ -]?key
abbrev pub after_api_key : Text → Option Text
after_api_key s = elim (after_word (codes "api") s) [
  | none ↦ none
  | some [] ↦ none
  | some (c ∷ t) ↦
      if c == b'_' || c == b' ' || c == b'-'
      then after_word (codes "key") t
      else after_word (codes "key") (c ∷ t)
]

-- (?:password|密码|api[_ -]?key)
unfoldable pub after_secret_word : Text → Option Text
unfolding after_word
after_secret_word s = elim (after_word (codes "password") s) [
  | some t ↦ some t
  | none ↦ elim (after_word (codes "密码") s) [ some t ↦ some t | none ↦ after_api_key s ]
]

-- [:：=]\s*\S+
unfoldable pub after_assignment : Text → Option Text
unfolding run_length is_space
after_assignment [] = none
after_assignment (c ∷ s) =
    let v = skip_spaces s in
    if c == b':' || c == 0xff1a || c == b'='
    then if is_nonempty v then some (drop (run_length (λ d. not (is_space d)) v) v) else none
    else none

-- (?i)(?:password|密码|api[_ -]?key)\s*[:：=]\s*\S+
unfoldable pub secret_assignment : Pattern
unfolding after_secret_word after_assignment
secret_assignment before s = elim (after_secret_word s) [
  | none ↦ none
  | some t ↦ elim (after_assignment (skip_spaces t)) [
    | none ↦ none
    | some rest ↦ some (length s - length rest)
  ]
]

abbrev pub sensitive_patterns : List Pattern
sensitive_patterns = identity_number ∷ secret_assignment ∷ []

-- `_DEFINITE_AMOUNT.search` at the start: the optional ends of the pattern decide nothing.
-- \d+(?:\.\d+)?\s*(?:元|块)
unfoldable pub amount_at : Text → Bool
unfolding run_length is_decimal is_space
amount_at s =
    let whole = run_length is_decimal s in
    let t = drop whole s in
    let fraction : ℕ = elim t [
      | [] ↦ 0
      | c ∷ u ↦ if c == b'.' && starts_digit u then suc (run_length is_decimal u) else 0
    ] in
    ltb 0 whole
    && elim (skip_spaces (drop fraction t)) [ [] ↦ false | c ∷ u ↦ c == 0x5143 || c == 0x5757 ]

unfoldable pub definite_amount : Text → Bool
unfolding amount_at
definite_amount [] = false
definite_amount (c ∷ s) = amount_at (c ∷ s) || definite_amount s

abbrev pub is_question_edge : ℕ → Bool
is_question_edge c = c == 0x3002 || c == 0xff01 || c == b'!' || c == 0xff0c || c == b','

abbrev pub is_question_mark : ℕ → Bool
is_question_mark c = c == b'?' || c == 0xff1f

-- `_normalized_question`; an absent content is the empty text.
unfoldable pub normalized_question : Text → Text
unfolding is_space strip_of
normalized_question value =
    let text = strip_of is_question_edge (keep (λ c. not (is_space c)) value) in
    if any is_question_mark text then text else []
