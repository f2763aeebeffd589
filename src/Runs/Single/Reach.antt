-- ===== src/Runs/Single/Reach.antt =====
-- The running runs of a session of agent_runtime/store.py over any run of the methods.
use hommey.Runs.Rows.{
  Checkpoint, Db, Receipt, RunStatus, Sanitizer, Scope, Trip, is_owned, is_request,
}
use hommey.Runs.Turns.{
  Begun, begin, cancel, is_cancellable, is_mine, save, saved, stop, stopped, with_runs,
}
use hommey.Runs.Trips.{Change, apply}
use hommey.Runs.Replays.{apply-cases}
use hommey.Runs.Receipts.{commit-lem}
use hommey.Runs.Single.{IsSingle, update-IsSingle}
use hommey.Runs.Single.Begin.{begin-IsSingle}
use hommey.Prelude.{Option, String, arith, inl, inr, ok, refl, subst, sym, update_where, ℕ, ◌≡◌}

-- One call of a method that returns; one that raises rolls its transaction back.
pub data Step (s : Db) : Db → Type 0 where
  begins :
      (now : ℕ) (scope : Scope) (h owner : String) (b : Begun) {t : Db}
      → begin now scope h owner s ≡ ok (b, t)
      → Step s t
  saves :
      (now : ℕ) (z : Sanitizer) (scope : Scope) (owner : String) (checkpoint : Checkpoint)
      (response : Option String) (status : RunStatus) {t : Db}
      → save now z scope owner checkpoint response status s ≡ ok t
      → Step s t
  stops :
      (now : ℕ) (z : Sanitizer) (scope : Scope) (owner : String) (status : RunStatus)
      (checkpoint : Option Checkpoint)
      → Step s (stop now z scope owner status checkpoint s)
  cancels : (now : ℕ) (scope : Scope) → Step s (cancel now scope s).1
  applies :
      (digest : Trip → ℕ) (now : ℕ) (fresh : String) (scope : Scope) (owner : String) (c : Change)
      (receipt : Receipt) {t : Db}
      → apply digest now fresh scope owner c s ≡ ok (receipt, t)
      → Step s t

pub data Reach (s : Db) : Db → Type 0 where
  here : Reach s s
  next : {t u : Db} → Reach s t → Step t u → Reach s u

Step-IsSingle : {s t : Db} → Step s t → IsSingle s.runs → IsSingle t.runs
unfolding save stop cancel
Step-IsSingle {s} {t} (begins now scope h owner b e) k = begin-IsSingle now scope h owner s b t k e
Step-IsSingle {s} {t} (saves now z scope owner checkpoint response status e) k =
    let d : with_runs s
          (update_where (is_owned scope owner) (saved now z checkpoint response status) s.runs)
        ≡ t =
      ground (arith, e) in
    subst (λ x. IsSingle x.runs) d
      (update-IsSingle (is_owned scope owner) (saved now z checkpoint response status) s.runs
        (λ r u q. refl) (λ r u q b t. ground (arith, b, t)) k)
Step-IsSingle {s} (stops now z scope owner status checkpoint) k =
    update-IsSingle (is_mine scope owner) (stopped now z status checkpoint) s.runs (λ r u q. refl)
      (λ r u q b t. ground (arith, b, t)) k
Step-IsSingle {s} (cancels now scope) k =
    update-IsSingle (is_cancellable scope) _ s.runs (λ r u q. refl) (λ r u q b t. t) k
Step-IsSingle {s} {t} (applies digest now fresh scope owner c receipt e) k =
    let (run, f, g, how) = apply-cases digest now fresh scope owner c s receipt t e in
    elim how [
      | inl (l, d) ↦ subst (λ x. IsSingle x.runs) d k
      | inr (l, d) ↦
          let (v, w, runs) = commit-lem digest now fresh scope c s receipt t d in
          subst IsSingle (sym runs)
            (update-IsSingle (is_request scope) _ s.runs (λ r u q. refl) (λ r u q b t. t) k)
    ]

-- Whatever calls of `_begin`, `_save`, `_stop`, `_cancel` and `_apply` succeed, in any order and by
-- any workers, request ids stay distinct for each user, and a session has at most one running run.
pub Reach-IsSingle : {s t : Db} → Reach s t → IsSingle s.runs → IsSingle t.runs
Reach-IsSingle here k = k
Reach-IsSingle (next r st) k = Step-IsSingle st (Reach-IsSingle r k)
