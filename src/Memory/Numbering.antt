-- ===== src/Memory/Numbering.antt =====
-- context/memory_repository.py: the numbers of the messages when `append_message` inserts one.
use hommey.Memory.Rows.{MessageRow, SessionRecord}
use hommey.Memory.Sessions.{is_open_session, is_session, is_owned}
use hommey.Memory.Messages.{Draft, counted, is_request, new_message}
use hommey.Memory.Order.{
  Before, InOrder, IsCounting, IsOrdered, IsPlaced, is_of, update-IsPlaced, update_unique,
}
use hommey.Prelude.{
  All, All-In, All-append, All-imp, Bool, Bool-cases, In, In-All, In-unique, List, String, [], any,
  ap, arith, count-append, eq_iff, false, find_by, inl, inr, none, refl, some, subst, sym, true,
  update_where, ℕ, ◌++◌, ◌+◌, ◌==◌, ◌∙◌, ◌∷◌, ◌≡◌, ◌≤◌, String_eq, ℕ_eq,
}

-- The statement on the session that gets the message.
abbrev pub counted_in : ℕ → String → ℕ → List SessionRecord → List SessionRecord
counted_in now sid n ss = update_where (is_session sid) (counted now n) ss

unequal-sym : (x y : String) → (x == y) ≡ false → (y == x) ≡ false
unequal-sym x y h = elim (Bool-cases (y == x)) [
  | inl b ↦
      let e : (x == y) ≡ true = (eq_iff x y).1 (sym ((eq_iff y x).0 b)) in
      absurd (ground (arith, e, h))
  | inr b ↦ b
]

-- Of the rows that the insertion finds, what it relies on.
pub record Found (user_id sid : String) (s : SessionRecord) (ss : List SessionRecord) : Type 0 where
  pub is_there : In s ss
  pub is_same : s.session_id ≡ sid
  pub is_users : s.user_id ≡ user_id

pub find_by-Found :
    (user_id sid : String) (s : SessionRecord) (ss : List SessionRecord)
    → find_by (is_open_session user_id sid) ss ≡ some s
    → Found user_id sid s ss
find_by-Found user_id sid s [] e = cc
find_by-Found user_id sid s (t ∷ ss) e = elim (Bool-cases (is_open_session user_id sid t)) [
  | inl b ↦
      let same : t ≡ s = ground (arith, b, e) in
      record {
        is_there = inl same;
        is_same =
            (eq_iff s.session_id sid).0
              (ground (arith, subst (λ x. is_open_session user_id sid x ≡ true) same b));
        is_users =
            (eq_iff s.user_id user_id).0
              (ground (arith, subst (λ x. is_open_session user_id sid x ≡ true) same b));
      }
  | inr b ↦
      let f = find_by-Found user_id sid s ss (ground (arith, b, e)) in
      record { is_there = inr f.is_there; is_same = f.is_same; is_users = f.is_users }
]

module _ (redact : String → String) (days now : ℕ) (d : Draft) (s : SessionRecord)
    (ss : List SessionRecord) (ms : List MessageRow) where
  abbrev pub new : MessageRow
  new = new_message redact days now (s.last_sequence + 1) d

  new-InOrder_of :
      (ns : List MessageRow) → InOrder ns → All (λ m. Before m new) ns → InOrder (ns ++ new ∷ [])
  new-InOrder_of [] o k = (tt, tt)
  new-InOrder_of (m ∷ ns) o k = (All-append (Before m) ns new o.0 k.0, new-InOrder_of ns o.1 k.1)

  find_by-All :
      (p : MessageRow → Bool) (ns : List MessageRow)
      → find_by p ns ≡ none
      → All (λ m. p m ≡ false) ns
  find_by-All p [] e = tt
  find_by-All p (m ∷ ns) e = elim (Bool-cases (p m)) [
    | inl b ↦ absurd (ground (arith, b, e))
    | inr b ↦ (b, find_by-All p ns (ground (arith, b, e)))
  ]

  -- The last number of the session is past those of its messages.
  past-last :
      Found d.user_id d.session_id s ss
      → IsOrdered now ss ms
      → All (λ m. is_of s m ≡ true → m.sequence_no ≤ s.last_sequence) ms
  past-last f h = (In-All (IsCounting ms) ss s h.counting f.is_there).0

  new-Before :
      Found d.user_id d.session_id s ss
      → (ns : List MessageRow) → All (λ m. is_of s m ≡ true → m.sequence_no ≤ s.last_sequence) ns
      → All (IsPlaced now ss) ns
      → All (λ m. is_request d.user_id d.request_id d.role m ≡ false) ns
      → All (λ m. Before m new) ns
  new-Before f [] k p q = tt
  new-Before f (m ∷ ns) k p q = (
    (
      p.0.0,
      (λ e. omega (arith, k.0 (subst (λ t. (m.session_id == t) ≡ true) (sym f.is_same) e)), q.0),
    ),
    new-Before f ns k.1 p.1 q.1,
  )

  only_one :
      Found d.user_id d.session_id s ss
      → IsOrdered now ss ms
      → All (λ t. is_session d.session_id t ≡ true → t ≡ s) ss
  only_one f h =
      All-In (λ t. is_session d.session_id t ≡ true → t ≡ s) ss
        (λ t i e.
          In-unique (is_session d.session_id) t s ss (h.unique d.session_id) e
            ((eq_iff s.session_id d.session_id).1 f.is_same) i f.is_there)

  -- The session of the message counts it.
  counted-IsCounting :
      (t : SessionRecord)
      → is_session d.session_id t ≡ true
      → t ≡ s
      → IsCounting ms t
      → IsCounting (ms ++ new ∷ []) (counted now (s.last_sequence + 1) t)
  counted-IsCounting t b same q = (
    All-append (λ m. is_of t m ≡ true → m.sequence_no ≤ s.last_sequence + 1) ms new
        (All-imp ms (λ m k e. omega (arith, k e, ap (λ x. x.last_sequence) same)) q.0)
        (λ e. omega arith),
    rw (count-append (is_of t) ms new) (ground (arith, q.1)),
  )

  -- The other sessions do not.
  other-IsCounting :
      (t : SessionRecord)
      → is_session d.session_id t ≡ false
      → IsCounting ms t
      → IsCounting (ms ++ new ∷ []) t
  other-IsCounting t b q =
      let apart : is_of t new ≡ false = unequal-sym t.session_id d.session_id b in
      (
        All-append (λ m. is_of t m ≡ true → m.sequence_no ≤ t.last_sequence) ms new q.0
            (λ e. absurd (ground (arith, e, apart))),
        rw (count-append (is_of t) ms new, apart) (omega (arith, q.1)),
      )

  counted-All :
      (ts : List SessionRecord)
      → All (λ t. is_session d.session_id t ≡ true → t ≡ s) ts
      → All (IsCounting ms) ts
      → All (IsCounting (ms ++ new ∷ [])) (counted_in now d.session_id (s.last_sequence + 1) ts)
  counted-All [] k q = tt
  counted-All (t ∷ ts) k q = elim (Bool-cases (is_session d.session_id t)) [
    | inl b ↦ rw b (counted-IsCounting t b (k.0 b) q.0, counted-All ts k.1 q.1)
    | inr b ↦ rw b (other-IsCounting t b q.0, counted-All ts k.1 q.1)
  ]

  In-any :
      (ts : List SessionRecord)
      → In s ts
      → Found d.user_id d.session_id s ss
      → any (is_owned d.user_id d.session_id) ts ≡ true
  In-any [] i e = absurd i
  In-any (t ∷ ts) (inl k) f =
      let same : (t.session_id == d.session_id) ≡ true =
        (eq_iff t.session_id d.session_id).1 (ap (λ x. x.session_id) k ∙ f.is_same) in
      let users : (t.user_id == d.user_id) ≡ true =
        (eq_iff t.user_id d.user_id).1 (ap (λ x. x.user_id) k ∙ f.is_users) in
      rw (users, same) refl
  In-any (t ∷ ts) (inr i) f = elim (Bool-cases (is_owned d.user_id d.session_id t)) [
    | inl b ↦ rw b refl
    | inr b ↦ rw b (In-any ts i f)
  ]

  -- An inserted message has the number after the session's last one.
  pub inserted-IsOrdered :
      find_by (is_open_session d.user_id d.session_id) ss ≡ some s
      → find_by (is_request d.user_id d.request_id d.role) ms ≡ none
      → IsOrdered now ss ms
      → IsOrdered now (counted_in now d.session_id (s.last_sequence + 1) ss) (ms ++ new ∷ [])
  inserted-IsOrdered e n h =
      let f = find_by-Found d.user_id d.session_id s ss e in
      let id : (t : SessionRecord)
          → (counted now (s.last_sequence + 1) t).session_id ≡ t.session_id =
        λ t. refl in
      record {
        order =
            new-InOrder_of ms h.order
              (new-Before f ms (past-last f h) h.placed (find_by-All _ ms n));
        counting = counted-All ss (only_one f h) h.counting;
        placed =
            update-IsPlaced now (is_session d.session_id) (counted now (s.last_sequence + 1)) ss
              (ms ++ new ∷ []) id (λ t. refl)
              (All-append (IsPlaced now ss) ms new h.placed (omega arith, In-any ss f.is_there f));
        unique = λ sid.
            update_unique (is_session d.session_id) (counted now (s.last_sequence + 1)) ss sid id
              (h.unique sid);
      }
