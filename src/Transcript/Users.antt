-- ===== src/Transcript/Users.antt =====
-- The user's messages in the dialogue of agent_runtime/context_window.py.
use hommey.Transcript.{
  Message, after_tools, answered, copied, copied_result, is_tool, is_user, settle, settled_messages,
  speaks, tools_first,
}
use hommey.Text.{is_nonempty}
use hommey.Prelude.{
  All, Bool, Bool-cases, List, [], ap, arith, false, inl, inr, keep, length, map, refl, suc, zero,
  ℕ, ◌&&◌, ◌++◌, ◌==◌, ◌∙◌, ◌∷◌, ◌≡◌, ◌≤◌, String_eq, ℕ_eq,
}

abbrev pub by_user : Message → Bool
by_user m = is_user m.role

keep-append :
    {A : Type 0} (p : A → Bool) (xs ys : List A) → keep p (xs ++ ys) ≡ keep p xs ++ keep p ys
keep-append p [] ys = refl
keep-append p (x ∷ xs) ys = elim (Bool-cases (p x)) [
  | inl b ↦ rw b (ap (λ t. x ∷ t) (keep-append p xs ys))
  | inr b ↦ rw b (keep-append p xs ys)
]

users-results : (rows : List Message) → keep by_user (map copied_result (tools_first rows)) ≡ []
unfolding tools_first
users-results [] = refl
users-results (m ∷ ms) = elim (Bool-cases (is_tool m.role)) [
  | inl b ↦ let n : is_user m.role ≡ false = ground (arith, b) in rw (b, n) (users-results ms)
  | inr b ↦ rw b refl
]

users-after_tools : (rows : List Message) → keep by_user (after_tools rows) ≡ keep by_user rows
unfolding after_tools
users-after_tools [] = refl
users-after_tools (m ∷ ms) = elim (Bool-cases (is_tool m.role)) [
  | inl b ↦ let n : is_user m.role ≡ false = ground (arith, b) in rw (b, n) (users-after_tools ms)
  | inr b ↦ rw b refl
]

pub after_tools-length : (rows : List Message) → length (after_tools rows) ≤ length rows
unfolding after_tools
after_tools-length [] = omega arith
after_tools-length (m ∷ ms) = ground (arith, after_tools-length ms)

-- A user's message has no tool calls.
abbrev pub Plain : Message → Type 0
Plain m = (is_user m.role && is_nonempty m.calls) ≡ false

Plain-after_tools : (rows : List Message) → All Plain rows → All Plain (after_tools rows)
unfolding after_tools
Plain-after_tools [] h = tt
Plain-after_tools (m ∷ ms) h = elim (Bool-cases (is_tool m.role)) [
  | inl b ↦ rw b (Plain-after_tools ms h.1)
  | inr b ↦ rw b h
]

settle-users :
    (fuel : ℕ) (rows : List Message)
    → length rows ≤ fuel
    → All Plain rows
    → keep by_user (settle fuel rows) ≡ map copied (keep by_user rows)
unfolding settle
settle-users zero [] l h = refl
settle-users zero (row ∷ rows) l h = absurd (omega (arith, l))
settle-users (suc fuel) [] l h = refl
settle-users (suc fuel) (row ∷ rows) l h =
    let next = settle-users fuel rows (omega (arith, l)) h.1 in
    let later =
      settle-users fuel (after_tools rows) (omega (arith, l, after_tools-length rows))
        (Plain-after_tools rows h.1)
      ∙ ap (map copied) (users-after_tools rows) in
    elim (Bool-cases (speaks row.role)) [
      | inr s ↦ let n : is_user row.role ≡ false = ground (arith, s) in rw (s, n) next
      | inl s ↦ elim (Bool-cases (is_nonempty row.calls)) [
        | inr c ↦ elim (Bool-cases (is_user row.role)) [
          | inl u ↦ rw (s, c, u) (ap (λ t. copied row ∷ t) next)
          | inr u ↦ rw (s, c, u) next
        ]
        | inl c ↦
            let n : is_user row.role ≡ false = ground (arith, c, h.0) in
            elim (Bool-cases (answered row (tools_first rows))) [
              | inl a ↦
                  rw (s, c, a, n)
                    (keep-append by_user (map copied_result (tools_first rows))
                        (settle fuel (after_tools rows))
                      ∙ ap (λ t. t ++ keep by_user (settle fuel (after_tools rows)))
                          (users-results rows)
                      ∙ later)
              | inr a ↦ elim (Bool-cases (row.content == "")) [
                | inl e ↦ rw (s, c, a, e, n) later
                | inr e ↦ rw (s, c, a, e, n) later
              ]
            ]
      ]
    ]

-- The dialogue holds every message of the user, in order, when no such message calls a tool.
pub settled_messages-users :
    (rows : List Message)
    → All Plain rows
    → keep by_user (settled_messages rows) ≡ map copied (keep by_user rows)
unfolding settled_messages
settled_messages-users rows h = settle-users (length rows) rows (omega arith) h
