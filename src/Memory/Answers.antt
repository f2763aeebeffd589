-- ===== src/Memory/Answers.antt =====
-- context/memory_service.py: what a cache may hold when `get_recent_context` answers from it.
use hommey.ShortTerm.{Message}
use hommey.ShortTerm
use hommey.Memory.Service.{count_of}
use hommey.ShortTerm.Lists.{from_end}
use hommey.Memory.Rows.{Db, MessageRow, SessionRecord}
use hommey.Memory.Sessions.{is_owned}
use hommey.Memory.Order.{IsCounting, IsPlaced, is_of}
use hommey.Memory.Appending.{AreOrdered}
use hommey.Memory.Effects.{is_ours}
use hommey.Prelude.{
  All, Bool-cases, In, In-All, List, Option-cases, String, [], any, ap, arith, count, drop,
  drop-all, drop-append, drop-drop, drop-length-append, eq_iff, false, find_by, find_by-any,
  find_by-holds, inl, inr, keep, leb, length, length-drop, length-map, map, map-drop, min, refl,
  some, subst, sym, true, ℕ, ◌++◌, ◌+◌, ◌-◌, ◌<◌, ◌==◌, ◌∙◌, ◌∷◌, ◌≡◌, ◌≤◌, String_eq, ℕ_eq,
}

abbrev pub told : ShortTerm.Message → String × String
told m = (m.role, m.content)

abbrev pub IsSuffix : List (String × String) → List (String × String) → Type 0
IsSuffix xs ys = (k : ℕ) × (xs ≡ drop k ys)

-- xs[-n:] when n is not 0
abbrev pub ending : {A : Type 0} → ℕ → List A → List A
ending n xs = drop (length xs - n) xs

pub from_end-ending :
    {A : Type 0} (n : ℕ) (xs : List A) → (n == 0) ≡ false → from_end n xs ≡ ending n xs
unfolding from_end
from_end-ending n xs h = rw h refl

pub ending-map :
    {A B : Type 0} (f : A → B) (n : ℕ) (xs : List A) → map f (ending n xs) ≡ ending n (map f xs)
ending-map f n xs = rw (length-map f xs) (map-drop f (length xs - n) xs)

pub from_end-map :
    {A B : Type 0} (f : A → B) (n : ℕ) (xs : List A) → map f (from_end n xs) ≡ from_end n (map f xs)
unfolding from_end
from_end-map f n xs = elim (Bool-cases (n == 0)) [
  | inl b ↦ rw b refl
  | inr b ↦ rw b (ending-map f n xs)
]

pub suffix-from_end :
    (n : ℕ) (xs ys : List (String × String)) → IsSuffix xs ys → IsSuffix (from_end n xs) ys
unfolding from_end
suffix-from_end n xs ys (k, e) = elim (Bool-cases (n == 0)) [
  | inl b ↦ rw b (k, e)
  | inr b ↦ rw b (k + (length xs - n), ap (drop (length xs - n)) e ∙ drop-drop (length xs - n) k ys)
]

pub suffix-snoc :
    (y : String × String) (xs ys : List (String × String))
    → IsSuffix xs ys
    → IsSuffix (xs ++ y ∷ []) (ys ++ y ∷ [])
suffix-snoc y xs ys (k, e) = elim (Bool-cases (leb k (length ys))) [
  | inl b ↦ (k, ap (λ t. t ++ y ∷ []) e ∙ sym (drop-append k ys (y ∷ []) (ground (arith, b))))
  | inr b ↦
      let i : length ys ≤ k = ground (arith, b) in
      (
        length ys,
        ap (λ t. t ++ y ∷ []) (e ∙ drop-all k ys i) ∙ sym (drop-length-append ys (y ∷ [])),
      )
]

-- A suffix that is long enough ends as the whole does.
pub suffix-ending :
    {A : Type 0} (n most k : ℕ) (xs : List A)
    → n ≤ most
    → min (length xs) most ≤ length (drop k xs)
    → ending n (ending most (drop k xs)) ≡ ending n xs
suffix-ending n most k xs le h =
    let l = length-drop k xs in
    let l2 = length-drop (length (drop k xs) - most) (drop k xs) in
    drop-drop (length (ending most (drop k xs)) - n) (length (drop k xs) - most) (drop k xs)
    ∙ (drop-drop ((length (drop k xs) - most) + (length (ending most (drop k xs)) - n)) k xs
        ∙ elim (Bool-cases (leb k (length xs))) [
          | inl b ↦
              let i : k ≤ length xs = ground (arith, b) in
              ap (λ j. drop j xs) (omega (arith, l, l2, h, le, i))
          | inr b ↦
              let i : length xs < k = ground (arith, b) in
              drop-all _ xs (omega (arith, i))
              ∙ sym (drop-all (length xs - n) xs (omega (arith, l, h, le, i)))
        ])

-- The session's messages, and what its row counts.
module _ (now : ℕ) (user sid : String) (db : Db) where
  find_by-In :
      (s : SessionRecord) (ss : List SessionRecord)
      → find_by (is_owned user sid) ss ≡ some s
      → In s ss
  find_by-In s [] e = cc
  find_by-In s (t ∷ ss) e = elim (Bool-cases (is_owned user sid t)) [
    | inl b ↦ inl (ground (arith, b, e))
    | inr b ↦ inr (find_by-In s ss (ground (arith, b, e)))
  ]

  kept-count :
      (s : SessionRecord) (ms : List MessageRow)
      → s.session_id ≡ sid
      → length (keep (is_ours user sid) ms) ≤ count (is_of s) ms
  kept-count s [] e = omega arith
  kept-count s (m ∷ ms) e = elim (Bool-cases (is_ours user sid m)) [
    | inl b ↦
        let o : (m.session_id == sid) ≡ true = ground (arith, b) in
        let c : is_of s m ≡ true = subst (λ t. (m.session_id == t) ≡ true) (sym e) o in
        rw (b, c) (omega (arith, kept-count s ms e))
    | inr b ↦ rw b (omega (arith, kept-count s ms e))
  ]

  none-ours :
      (ms : List MessageRow)
      → any (is_owned user sid) db.sessions ≡ false
      → All (IsPlaced now db.sessions) ms
      → keep (is_ours user sid) ms ≡ []
  none-ours [] n h = refl
  none-ours (m ∷ ms) n h = elim (Bool-cases (is_ours user sid m)) [
    | inl b ↦
        let e : m.user_id ≡ user = (eq_iff m.user_id user).0 (ground (arith, b)) in
        let f : m.session_id ≡ sid = (eq_iff m.session_id sid).0 (ground (arith, b)) in
        absurd (ground (arith, n, rw (e, f) at h.0.1))
    | inr b ↦ rw b (none-ours ms n h.1)
  ]

  pub ours-count_of :
      AreOrdered now db
      → length (keep (is_ours user sid) db.messages)
        ≤ count_of (find_by (is_owned user sid) db.sessions)
  ours-count_of h = elim (Option-cases (find_by (is_owned user sid) db.sessions)) [
    | inl e ↦
        rw (e, none-ours db.messages (find_by-any (is_owned user sid) db.sessions e) h.placed)
          (omega arith)
    | inr (s, e) ↦
        let i : s.session_id ≡ sid =
          (eq_iff s.session_id sid).0
            (ground (arith, find_by-holds (is_owned user sid) db.sessions s e)) in
        let c =
          (In-All (IsCounting db.messages) db.sessions s h.counting
            (find_by-In s db.sessions e)).1 in
        rw e (omega (arith, c, kept-count s db.messages i))
  ]
