-- ===== src/Verification/Guesses.antt =====
-- How often a code of webui_new/auth/verification.py can be guessed, one call after another.
use hommey.Verification.{
  Guess, Keys, Limits, answered, command, verify_code, verify_ok, commands, decided, got, Verified,
  verify_attempts_exceeded, verify_invalid,
}
use hommey.Text.{Text, Text_eq, text_eqb}
use hommey.Prelude.{
  Bool, Bool-cases, List, Option, [], all, ap, arith, count, drop, false, inl, inr, ltb, none, refl,
  some, subst, suc, sym, true, zero, ℕ, ◌+◌, ◌-◌, ◌<◌, ◌==◌, ◌∷◌, ◌≡◌, ◌≤◌, String_eq, ℕ_eq,
}

-- The answers to a sequence of guesses, with no new code between them.
abbrev pub answers : Limits → Keys → List Text → List Guess
answers l k [] = []
answers l k (g ∷ gs) = (verify_code l g k).0 ∷ answers l (verify_code l g k).1 gs

abbrev pub is_accepted : Guess → Bool
is_accepted (answered verify_ok) = true
is_accepted _ = false

abbrev pub is_answered : Guess → Bool
is_answered (answered v) = true
is_answered _ = false

-- What a call leaves that runs alone: no code, or an answer other than ok that counts.
data Left (l : Limits) (k : Keys) (r : Guess × Keys) : Type 0 where
  closes :
      is_answered r.0 ≡ true
      → r.1.code ≡ none
      → (l.max_attempts ≤ k.attempts → is_accepted r.0 ≡ false)
      → Left l k r
  counts :
      is_answered r.0 ≡ true
      → is_accepted r.0 ≡ false
      → r.1.attempts ≡ k.attempts + 1
      → k.attempts < l.max_attempts
      → Left l k r

commands-answered :
    (l : Limits) (m : ℕ) (v : Verified) (k : Keys) → commands m l (answered v) k ≡ (answered v, k)
unfolding command
commands-answered l zero v k = refl
commands-answered l (suc m) v k = commands-answered l m v k

decided-Left :
    (l : Limits) (g s : Text) (k : Keys) (m : ℕ)
    → Left l k (
        commands
          (suc m)
          l
          (decided l g s (k.attempts + 1))
          (record k { attempts = k.attempts + 1 }))
unfolding command
decided-Left l g s k m = elim (Bool-cases (ltb l.max_attempts (k.attempts + 1))) [
  | inl b ↦ rw b (
      subst (Left l k) (sym (commands-answered l m verify_attempts_exceeded _))
        (Left.closes refl refl (λ _. refl)))
  | inr b ↦ elim (Bool-cases (text_eqb s g)) [
    | inl c ↦
        rw (b, c)
          (subst (Left l k) (sym (commands-answered l m verify_ok _))
            (Left.closes refl refl (λ h. absurd (ground (arith, b, h)))))
    | inr c ↦
        rw (b, c)
          (subst (Left l k) (sym (commands-answered l m verify_invalid _))
            (Left.counts refl refl refl (ground (arith, b))))
  ]
]

from-Left :
    (l : Limits) (g : Text) (o : Option Text) (k : Keys)
    → k.code ≡ o
    → Left l k (commands 3 l (got g o) k)
unfolding command
from-Left l g none k h = Left.closes refl h (λ _. refl)
from-Left l g (some s) k h = elim (Bool-cases (k.attempts + 1 == 1)) [
  | inl b ↦ rw b (decided-Left l g s k 0)
  | inr b ↦ rw b (decided-Left l g s k 1)
]

verify_code-Left : (l : Limits) (g : Text) (k : Keys) → Left l k (verify_code l g k)
unfolding verify_code command
verify_code-Left l g k = from-Left l g k.code k refl

answers-none :
    (l : Limits) (gs : List Text) (k : Keys)
    → k.code ≡ none
    → count is_accepted (answers l k gs) ≡ 0
unfolding verify_code command
answers-none l [] k h = refl
answers-none l (g ∷ gs) k h =
    let e : verify_code l g k ≡ (answered verify_invalid, k) =
      ap (λ o. commands 3 l (got g o) k) h in
    rw e (omega (arith, answers-none l gs k h))

answers-answered :
    (l : Limits) (gs : List Text) (k : Keys) → all is_answered (answers l k gs) ≡ true
answers-answered l [] k = refl
answers-answered l (g ∷ gs) k =
    let rest = answers-answered l gs (verify_code l g k).1 in
    elim (verify_code-Left l g k) [
      | Left.closes d n a ↦ rw (d, rest) refl
      | Left.counts d n a m ↦ rw (d, rest) refl
    ]

count-drop : (n : ℕ) (rs : List Guess) → count is_accepted (drop n rs) ≤ count is_accepted rs
count-drop zero rs = omega arith
count-drop (suc n) [] = omega arith
count-drop (suc n) (r ∷ rs) = omega (arith, count-drop n rs)

answers-late :
    (l : Limits) (n : ℕ) (gs : List Text) (k : Keys)
    → l.max_attempts ≤ k.attempts + n
    → count is_accepted (drop n (answers l k gs)) ≡ 0
answers-late l zero [] k h = refl
answers-late l (suc n) [] k h = refl
answers-late l zero (g ∷ gs) k h = elim (verify_code-Left l g k) [
  | Left.closes d c a ↦
      rw (a (omega (arith, h))) (omega (arith, answers-none l gs (verify_code l g k).1 c))
  | Left.counts d c a m ↦ absurd (omega (arith, m, h))
]
answers-late l (suc n) (g ∷ gs) k h =
    let after = (verify_code l g k).1 in
    elim (verify_code-Left l g k) [
      | Left.closes d c a ↦
          omega (arith, answers-none l gs after c, count-drop n (answers l after gs))
      | Left.counts d c a m ↦ answers-late l n gs after (omega (arith, a, h))
    ]

-- Guesses that run one after another are all answered, and none is accepted after as many as the code
-- has attempts left.
pub answers_lem :
    (l : Limits) (gs : List Text) (k : Keys)
    → (all is_answered (answers l k gs) ≡ true)
      × (count is_accepted (drop (l.max_attempts - k.attempts) (answers l k gs)) ≡ 0)
answers_lem l gs k =
    (answers-answered l gs k, answers-late l (l.max_attempts - k.attempts) gs k (omega arith))
