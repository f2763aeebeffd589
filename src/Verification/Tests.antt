-- ===== src/Verification/Tests.antt =====
-- Guesses at a code of webui_new/auth/verification.py.
use hommey.Verification.{
  Keys, Limits, answered, command, getting, issue_code, verify_attempts_exceeded, verify_code,
  verify_invalid, verify_ok,
}
use hommey.Verification.Guesses.{answers}
use hommey.Verification.Interleaving.{interleaved}
use hommey.Text.{Text, codes}
use hommey.Prelude.{List, [], false, map, none, refl, ℕ, ◌∷◌, ◌≡◌}

abbrev limits : Limits
limits = record { max_attempts = 2; daily_limit = 10; ip_limit = 5 }

abbrev unused : Keys
unused = record { code = none; attempts = 0; cooldown = false; daily = 0; ip_count = 0 }

abbrev mailed : Keys
mailed = (issue_code limits (codes "042137") unused).1

abbrev wrong : Text
wrong = codes "000000"

-- the third guess is right, and comes too late
late_run :
    answers limits mailed (wrong ∷ wrong ∷ codes "042137" ∷ [])
    ≡ answered verify_invalid ∷ answered verify_invalid ∷ answered verify_attempts_exceeded ∷ []
unfolding issue_code verify_code command
late_run = refl

abbrev right : Text
right = codes "042137"

-- Two calls that read the code before either deletes it.
abbrev crossed : List ℕ
crossed = 0 ∷ 1 ∷ 0 ∷ 1 ∷ 0 ∷ 0 ∷ 1 ∷ []

both_accepted :
    (interleaved limits crossed (map (λ c. getting c) (right ∷ right ∷ [])) mailed).0
    ≡ answered verify_ok ∷ answered verify_ok ∷ []
unfolding issue_code command
both_accepted = refl

-- A code without an attempt left: the first call deletes the counter, and the second one, which has
-- read the code before, starts to count again.
abbrev worn : Keys
worn = record mailed { attempts = 2 }

counter_restarts :
    (interleaved limits
      (0 ∷ 1 ∷ 0 ∷ 0 ∷ 1 ∷ 1 ∷ 1 ∷ [])
      (map (λ c. getting c) (wrong ∷ right ∷ []))
      worn).0
    ≡ answered verify_attempts_exceeded ∷ answered verify_ok ∷ []
unfolding issue_code command
counter_restarts = refl
