-- ===== src/Runs/Single.antt =====
-- How many runs of a session of agent_runtime/store.py are running.
mod Begin
pub mod Reach
use hommey.Runs.Rows.{Run, is_running}
use hommey.Prelude.{
  All-trivial, Bool, List, String, arith, count, count-update_where, sym, true, update_where, ◌&&◌,
  ◌==◌, ◌∙◌, ◌≡◌, ◌≤◌, String_eq, ℕ_eq,
}

abbrev pub has_key : String → String → Run → Bool
has_key user request r = r.user_id == user && r.request_id == request

abbrev pub runs_in : String → String → Run → Bool
runs_in user session r = r.user_id == user && r.session_id == session && is_running r.status

-- (user_id, request_id) is the primary key, and a session has at most one running run.
pub record IsSingle (rs : List Run) : Type 0 where
  pub keyed : (user request : String) → count (has_key user request) rs ≤ 1
  pub single : (user session : String) → count (runs_in user session) rs ≤ 1

-- Rows are rewritten, their keys are kept, and no ended run runs again.
update-IsSingle :
    (p : Run → Bool) (f : Run → Run) (rs : List Run)
    → ((r : Run) (user request : String) → has_key user request (f r) ≡ has_key user request r)
    → ((r : Run) (user session : String)
        → p r ≡ true
        → runs_in user session (f r) ≡ true
        → runs_in user session r ≡ true)
    → IsSingle rs
    → IsSingle (update_where p f rs)
update-IsSingle p f rs k s h = record {
  keyed = λ user request. omega (
    arith,
    h.keyed user request,
    count-update_where {Q = λ _. Unit {0}} (has_key user request) p f rs
        (λ j b _ t. sym (k j user request) ∙ t) (All-trivial rs),
  );
  single = λ user session. omega (
    arith,
    h.single user session,
    count-update_where {Q = λ _. Unit {0}} (runs_in user session) p f rs
        (λ j b _ t. s j user session b t) (All-trivial rs),
  );
}
