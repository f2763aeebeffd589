-- ===== src/Verification.antt =====
-- webui_new/auth/verification.py: the codes that are mailed at registration. A call of `verify_code`
-- is a sequence of commands of Redis, between which other calls may run theirs; `issue_code` is
-- modelled without another call between its commands.
pub mod Guesses
mod Interleaving
mod Tests
use hommey.Text.{Text, text_eqb, Text_eq}
use hommey.Prelude.{
  Bool, Option, Result, err, if◌then◌else◌, ltb, none, not, ok, some, suc, true, zero, ℕ, ◌+◌, ◌==◌,
  String_eq, ℕ_eq,
}

-- What Redis holds for an address, a day and a window of the caller's network address: a missing
-- counter is 0, and a key that has expired is missing.
pub record Keys : Type 0 where
  pub code : Option Text
  pub attempts : ℕ
  pub cooldown : Bool
  pub daily : ℕ
  pub ip_count : ℕ

pub record Limits : Type 0 where
  pub max_attempts : ℕ
  pub daily_limit : ℕ
  pub ip_limit : ℕ

-- `RateLimited`, by its kind
pub data RateLimited : Type 0 where
  cooldown daily_limit ip_limit : RateLimited

pub data Verified : Type 0 where
  verify_ok verify_invalid verify_attempts_exceeded : Verified

-- `issue_code`; `code` is the random number, filled up with zeros. A refusal takes back its own
-- counter only.
unfoldable pub issue_code : Limits → Text → Keys → Result RateLimited Text × Keys
issue_code l code k =
    if ltb l.ip_limit (k.ip_count + 1)
    then (err RateLimited.ip_limit, k)
    else (let counted = record k { ip_count = k.ip_count + 1 } in
        if k.cooldown
        then (err RateLimited.cooldown, counted)
        else (let cooling = record counted { cooldown = true } in
            if ltb l.daily_limit (k.daily + 1)
            then (err RateLimited.daily_limit, cooling)
            else (ok code, record cooling { daily = k.daily + 1; code = some code; attempts = 0 })))

abbrev pub forgotten : Keys → Keys
forgotten k = record k { code = none; attempts = 0 }

-- A call of `verify_code`, at the command that it awaits next, or with its answer: the GET of the
-- code; the INCR of the attempts, with the code that the GET gave; the EXPIRE, with the number of the
-- attempt; the DELETE of both keys.
pub data Guess : Type 0 where
  getting : (code : Text) → Guess
  counting : (code stored : Text) → Guess
  expiring : (code stored : Text) (attempt : ℕ) → Guess
  deleting : Verified → Guess
  answered : Verified → Guess

-- What follows once the attempt is counted; comparing needs no command.
abbrev pub decided : Limits → Text → Text → ℕ → Guess
decided l code stored attempt =
    if ltb l.max_attempts attempt
    then deleting verify_attempts_exceeded
    else if not (text_eqb stored code)
    then answered verify_invalid
    else deleting verify_ok

-- What the GET has given.
abbrev pub got : Text → Option Text → Guess
got code none = answered verify_invalid
got code (some stored) = counting code stored

-- The next command of a call. The times to live are not modelled, so EXPIRE leaves the keys.
unfoldable pub command : Limits → Guess → Keys → Guess × Keys
command l (getting code) k = (got code k.code, k)
command l (counting code stored) k =
    let n = k.attempts + 1 in
    (if n == 1 then expiring code stored n else decided l code stored n, record k { attempts = n })
command l (expiring code stored n) k = (decided l code stored n, k)
command l (deleting v) k = (answered v, forgotten k)
command l (answered v) k = (answered v, k)

abbrev pub commands : ℕ → Limits → Guess → Keys → Guess × Keys
commands zero l g k = (g, k)
commands (suc n) l g k = let r = command l g k in commands n l r.0 r.1

-- `verify_code`, whose at most four commands follow each other when no other call runs.
unfoldable pub verify_code : Limits → Text → Keys → Guess × Keys
unfolding command
verify_code l code k = commands 4 l (getting code) k
