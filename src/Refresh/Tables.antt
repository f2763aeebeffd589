-- ===== src/Refresh/Tables.antt =====
-- Lemmas on the table of rag/refresh_jobs.py: rows found, rows rewritten, and the primary key.
use hommey.Refresh.Rows.{Job}
use hommey.Refresh.Queue.{first_by}
use hommey.Refresh.Outcomes.{find_job}
use hommey.Prelude.{
  All, All-trivial, All-update_where, Bool, Bool-cases, List, Option-cases, String, [], arith,
  eq_iff, false, if◌then◌else◌, inl, inr, keep, some, subst, true, update_where, ◌==◌, ◌∷◌, ◌≡◌,
  ◌⊎◌, String_eq, ℕ_eq,
}

abbrev pub In : Job → List Job → Type 0
In c [] = ⊥
In c (j ∷ js) = (j ≡ c) ⊎ In c js

-- `job_id` is the primary key.
abbrev pub Unique : List Job → Type 0
Unique [] = Unit
Unique (j ∷ js) = All (λ k. (k.job_id == j.job_id) ≡ false) js × Unique js

pub first_by-In :
    (before : Job → Job → Bool) (js : List Job) (c : Job) → first_by before js ≡ some c → In c js
first_by-In before [] c e = cc
first_by-In before (j ∷ js) c e = elim (Option-cases (first_by before js)) [
  | inl n ↦ ground (arith, n, e)
  | inr (k, n) ↦ elim (Bool-cases (before k j)) [
    | inl b ↦ inr (first_by-In before js c (ground (arith, n, b, e)))
    | inr b ↦ inl (ground (arith, n, b, e))
  ]
]

pub keep-In : (p : Job → Bool) (js : List Job) (c : Job) → In c (keep p js) → In c js × (p c ≡ true)
keep-In p [] c h = absurd h
keep-In p (j ∷ js) c h = elim (Bool-cases (p j)) [
  | inl b ↦ elim (rw b at h) [
    | inl e ↦ (inl e, subst (λ x. p x ≡ true) e b)
    | inr t ↦ let (m, q) = keep-In p js c t in (inr m, q)
  ]
  | inr b ↦ let (m, q) = keep-In p js c (rw b at h) in (inr m, q)
]

pub find_job-In :
    (id : String) (js : List Job) (c : Job) → find_job id js ≡ some c → In c js × (c.job_id ≡ id)
find_job-In id [] c e = cc
find_job-In id (j ∷ js) c e = elim (Bool-cases (j.job_id == id)) [
  | inl b ↦ (inl (ground (arith, b, e)), ground (arith, b, e, eq_iff j.job_id id))
  | inr b ↦ let (m, q) = find_job-In id js c (ground (arith, b, e)) in (inr m, q)
]

-- A row with the key of `c` is `c`.
abbrev pub Only : Job → Job → Type 0
Only c j = (j.job_id == c.job_id) ≡ true → j ≡ c

All-absent-Only :
    (c : Job) (js : List Job) → All (λ k. (k.job_id == c.job_id) ≡ false) js → All (Only c) js
All-absent-Only c [] h = tt
All-absent-Only c (j ∷ js) h = (λ b. ground (arith, b, h.0), All-absent-Only c js h.1)

In-ne :
    (id : String) (c : Job) (js : List Job)
    → All (λ k. (k.job_id == id) ≡ false) js
    → In c js
    → (c.job_id == id) ≡ false
In-ne id c [] h m = absurd m
In-ne id c (j ∷ js) h m = elim m [
  | inl e ↦ subst (λ x. (x.job_id == id) ≡ false) e h.0
  | inr t ↦ In-ne id c js h.1 t
]

pub Unique-Only : (c : Job) (js : List Job) → Unique js → In c js → All (Only c) js
Unique-Only c [] u m = tt
Unique-Only c (j ∷ js) u m = elim m [
  | inl e ↦ (
    λ _. e,
    All-absent-Only c js (subst (λ x. All (λ k. (k.job_id == x.job_id) ≡ false) js) e u.0),
  )
  | inr t ↦ (
    λ b. absurd (
        ground (
          arith,
          b,
          In-ne j.job_id c js u.0 t,
          eq_iff j.job_id c.job_id,
          eq_iff c.job_id j.job_id,
        )),
    Unique-Only c js u.1 t,
  )
]

pub Unique-update_where :
    (p : Job → Bool) (f : Job → Job) (js : List Job)
    → ((j : Job) → (f j).job_id ≡ j.job_id)
    → Unique js
    → Unique (update_where p f js)
Unique-update_where p f [] k u = tt
Unique-update_where p f (j ∷ js) k u =
    let kept : (if p j then f j else j).job_id ≡ j.job_id = ground (arith, k j) in
    (
      rw kept (All-update_where p f js (λ i _ _ h. rw (k i) h) (All-trivial js) u.0),
      Unique-update_where p f js k u.1,
    )

pub All-In {ℓ} : (P : Job → Type ℓ) (js : List Job) (j : Job) → All P js → In j js → P j
All-In P [] j a m = absurd m
All-In P (k ∷ js) j a m = elim m [ inl e ↦ subst P e a.0 | inr t ↦ All-In P js j a.1 t ]
