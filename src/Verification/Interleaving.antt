-- ===== src/Verification/Interleaving.antt =====
-- How often a code of webui_new/auth/verification.py can be guessed at once: the commands of several
-- calls of `verify_code`, in any order.
use hommey.Verification.{
  Guess, Keys, Limits, answered, command, counting, deleting, expiring, getting,
}
use hommey.Verification.Guesses.{is_accepted}
use hommey.Text.{Text, Text_eq}
use hommey.Prelude.{
  Bool, List, [], count, false, is_some, none, suc, true, zero, ℕ, ◌||◌, ◌∷◌, ◌≡◌, ◌≤◌, String_eq,
  ℕ_eq,
}

-- A call between its GET and its answer.
abbrev pub is_running : Guess → Bool
is_running (getting code) = false
is_running (counting code stored) = true
is_running (expiring code stored n) = true
is_running (deleting v) = true
is_running (answered v) = false

-- The call at a place runs its next command.
abbrev pub advance : Limits → ℕ → List Guess → Keys → List Guess × Keys
advance l i [] k = ([], k)
advance l zero (g ∷ gs) k = let r = command l g k in (r.0 ∷ gs, r.1)
advance l (suc i) (g ∷ gs) k = let r = advance l i gs k in (g ∷ r.0, r.1)

-- The places, in the order in which their calls run commands.
abbrev pub interleaved : Limits → List ℕ → List Guess → Keys → List Guess × Keys
interleaved l [] gs k = (gs, k)
interleaved l (i ∷ is) gs k = let r = advance l i gs k in interleaved l is r.0 r.1

-- At no time do more than `w` calls run.
abbrev pub IsNarrow : Limits → ℕ → List ℕ → List Guess → Keys → Type 0
IsNarrow l w [] gs k = count is_running gs ≤ w
IsNarrow l w (i ∷ is) gs k =
    let r = advance l i gs k in (count is_running gs ≤ w) × IsNarrow l w is r.0 r.1

-- Calls that run, or have been accepted.
abbrev is_live : Guess → Bool
is_live g = is_accepted g || is_running g

-- What a command may do to its call: it stops, and if the code is there afterwards, accepts nothing.
record IsBounded (g : Guess) (k : Keys) (r : Guess × Keys) : Type 0 where
  forgets : k.code ≡ none → r.1.code ≡ none
  fewer : r.1.code ≡ none → is_live r.0 ≡ true → is_live g ≡ true
  waits : (is_some r.1.code ≡ true) → is_accepted r.0 ≡ true → is_accepted g ≡ true

-- While the code is there, none is accepted; afterwards, no more than `w` may be.
record IsHeld (w : ℕ) (gs : List Guess) (k : Keys) : Type 0 where
  before : is_some k.code ≡ true → count is_accepted gs ≡ 0
  after : k.code ≡ none → count is_live gs ≤ w
