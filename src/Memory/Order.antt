-- ===== src/Memory/Order.antt =====
-- context/memory_repository.py: the numbers of the messages, as the statements keep them.
use hommey.Memory.Rows.{MessageRow, SessionRecord}
use hommey.Memory.Sessions.{is_session, is_owned}
use hommey.Memory.Messages.{is_request}
use hommey.Prelude.{
  All, All-append, All-imp, All-trivial, All-update_where, Bool, Bool-cases, List, String, [], any,
  any-append, arith, count, count-any, count-append, count-update_where, eq_iff, false, inl, inr,
  refl, subst, true, update_where, ℕ, ◌++◌, ◌<◌, ◌==◌, ◌∙◌, ◌∷◌, ◌≡◌, ◌≤◌, String_eq, ℕ_eq,
}

-- A message, and one that is inserted later.
abbrev pub Before : MessageRow → MessageRow → Type 0
Before a b =
    (a.created_at ≤ b.created_at)
    × (((a.session_id == b.session_id) ≡ true → a.sequence_no < b.sequence_no)
        × (is_request b.user_id b.request_id b.role a ≡ false))

-- Each message comes before the later ones.
abbrev pub InOrder : List MessageRow → Type 0
InOrder [] = Unit
InOrder (m ∷ ms) = All (Before m) ms × InOrder ms

abbrev pub is_of : SessionRecord → MessageRow → Bool
is_of s m = m.session_id == s.session_id

-- A session counts its messages, and no number is past its last one.
abbrev pub IsCounting : List MessageRow → SessionRecord → Type 0
IsCounting ms s =
    All (λ m. is_of s m ≡ true → m.sequence_no ≤ s.last_sequence) ms
    × (count (is_of s) ms ≤ s.message_count)

-- A message was created by now, in a session of its user.
abbrev pub IsPlaced : ℕ → List SessionRecord → MessageRow → Type 0
IsPlaced now ss m = (m.created_at ≤ now) × (any (is_owned m.user_id m.session_id) ss ≡ true)

pub record IsOrdered (now : ℕ) (ss : List SessionRecord) (ms : List MessageRow) : Type 0 where
  pub order : InOrder ms
  pub counting : All (IsCounting ms) ss
  pub placed : All (IsPlaced now ss) ms
  pub unique : (sid : String) → count (is_session sid) ss ≤ 1

-- A statement on sessions that leaves their ids and their numbers.
pub record KeepsNumbers (f : SessionRecord → SessionRecord) : Type 0 where
  pub same_id : (s : SessionRecord) → (f s).session_id ≡ s.session_id
  pub same_user : (s : SessionRecord) → (f s).user_id ≡ s.user_id
  pub same_last : (s : SessionRecord) → (f s).last_sequence ≡ s.last_sequence
  pub same_count : (s : SessionRecord) → (f s).message_count ≡ s.message_count

any-update_where :
    (p : SessionRecord → Bool) (f : SessionRecord → SessionRecord) (user sid : String)
    (ss : List SessionRecord)
    → ((s : SessionRecord) → (f s).session_id ≡ s.session_id)
    → ((s : SessionRecord) → (f s).user_id ≡ s.user_id)
    → any (is_owned user sid) (update_where p f ss) ≡ any (is_owned user sid) ss
any-update_where p f user sid [] k u = refl
any-update_where p f user sid (s ∷ ss) k u = elim (Bool-cases (p s)) [
  | inl b ↦ rw (b, k s, u s, any-update_where p f user sid ss k u) refl
  | inr b ↦ rw (b, any-update_where p f user sid ss k u) refl
]

pub update-IsPlaced :
    (now : ℕ) (p : SessionRecord → Bool) (f : SessionRecord → SessionRecord)
    (ss : List SessionRecord) (ms : List MessageRow)
    → ((s : SessionRecord) → (f s).session_id ≡ s.session_id)
    → ((s : SessionRecord) → (f s).user_id ≡ s.user_id)
    → All (IsPlaced now ss) ms
    → All (IsPlaced now (update_where p f ss)) ms
update-IsPlaced now p f ss ms k u h =
    All-imp ms (λ m q. (q.0, any-update_where p f m.user_id m.session_id ss k u ∙ q.1)) h

pub update_unique :
    (p : SessionRecord → Bool) (f : SessionRecord → SessionRecord) (ss : List SessionRecord)
    (sid : String)
    → ((s : SessionRecord) → (f s).session_id ≡ s.session_id)
    → count (is_session sid) ss ≤ 1
    → count (is_session sid) (update_where p f ss) ≤ 1
update_unique p f ss sid k h =
    let n =
      count-update_where (is_session sid) p f ss (λ s _ _ e. subst (λ t. (t == sid) ≡ true) (k s) e)
        (All-trivial ss) in
    omega (arith, h, n)

pub update-IsOrdered :
    (now : ℕ) (p : SessionRecord → Bool) (f : SessionRecord → SessionRecord)
    (ss : List SessionRecord) (ms : List MessageRow)
    → KeepsNumbers f
    → IsOrdered now ss ms
    → IsOrdered now (update_where p f ss) ms
update-IsOrdered now p f ss ms k h = record {
  order = h.order;
  counting =
      All-update_where p f ss (λ s _ _ q. rw (k.same_id s, k.same_last s, k.same_count s) q)
        (All-trivial ss) h.counting;
  placed = update-IsPlaced now p f ss ms k.same_id k.same_user h.placed;
  unique = λ sid. update_unique p f ss sid k.same_id (h.unique sid);
}

pub later-IsOrdered :
    (now after : ℕ) (ss : List SessionRecord) (ms : List MessageRow)
    → now ≤ after
    → IsOrdered now ss ms
    → IsOrdered after ss ms
later-IsOrdered now after ss ms k h = record {
  order = h.order;
  counting = h.counting;
  placed = All-imp ms (λ m q. (omega (arith, k, q.0), q.1)) h.placed;
  unique = h.unique;
}

pub owned-session :
    (user sid : String) (ss : List SessionRecord)
    → any (is_owned user sid) ss ≡ true
    → any (is_session sid) ss ≡ true
owned-session user sid [] h = h
owned-session user sid (s ∷ ss) h = elim (Bool-cases (is_session sid s)) [
  | inl b ↦ rw b refl
  | inr b ↦ rw b (owned-session user sid ss (ground (arith, b, h)))
]

-- No message is in a session that is not there.
placed-none :
    (now : ℕ) (s : SessionRecord) (ss : List SessionRecord) (ms : List MessageRow)
    → any (is_session s.session_id) ss ≡ false
    → All (IsPlaced now ss) ms
    → All (λ m. is_of s m ≡ false) ms
placed-none now s ss ms fresh h =
    All-imp ms
      (λ m q. elim (Bool-cases (is_of s m)) [
        | inl b ↦
            let e : m.session_id ≡ s.session_id = (eq_iff m.session_id s.session_id).0 b in
            let there : any (is_session s.session_id) ss ≡ true =
              subst (λ t. any (is_session t) ss ≡ true) e
                (owned-session m.user_id m.session_id ss q.1) in
            absurd (ground (arith, there, fresh))
        | inr b ↦ b
      ])
      h

count-none :
    (p : MessageRow → Bool) (ms : List MessageRow) → All (λ m. p m ≡ false) ms → count p ms ≡ 0
count-none p [] h = refl
count-none p (m ∷ ms) h = rw (h.0, count-none p ms h.1) refl

snoc_unique :
    (s : SessionRecord) (ss : List SessionRecord) (sid : String)
    → any (is_session s.session_id) ss ≡ false
    → count (is_session sid) ss ≤ 1
    → count (is_session sid) (ss ++ s ∷ []) ≤ 1
snoc_unique s ss sid fresh h = elim (Bool-cases (s.session_id == sid)) [
  | inl b ↦
      let e : s.session_id ≡ sid = (eq_iff s.session_id sid).0 b in
      let z = count-any (is_session sid) ss (subst (λ t. any (is_session t) ss ≡ false) e fresh) in
      rw (count-append (is_session sid) ss s, b, z) (omega arith)
  | inr b ↦ rw (count-append (is_session sid) ss s, b) (omega (arith, h))
]

-- A session with a new id joins.
pub snoc-IsOrdered :
    (now : ℕ) (s : SessionRecord) (ss : List SessionRecord) (ms : List MessageRow)
    → any (is_session s.session_id) ss ≡ false
    → IsOrdered now ss ms
    → IsOrdered now (ss ++ s ∷ []) ms
snoc-IsOrdered now s ss ms fresh h =
    let none_of = placed-none now s ss ms fresh h.placed in
    record {
      order = h.order;
      counting = All-append (IsCounting ms) ss s h.counting (
        All-imp ms (λ m q e. absurd (ground (arith, q, e))) none_of,
        rw (count-none (is_of s) ms none_of) (omega arith),
      );
      placed =
          All-imp ms (λ m q. (q.0, any-append (is_owned m.user_id m.session_id) ss (s ∷ []) q.1))
            h.placed;
      unique = λ sid. snoc_unique s ss sid fresh (h.unique sid);
    }
