-- ===== src/Memory/Newest.antt =====
-- context/memory_repository.py: what `get_messages` reads of one session, and in which order.
use mathlib.Core.List.{reverse, reverse-cons, reverse-reverse}
use hommey.Memory.Rows.{Db, MessageRow}
use hommey.Memory.Reading.{
  Filter, comes_first, get_messages, is_selected, limit_rows, newest_first, place,
}
use hommey.Memory.Order.{Before, InOrder}
use hommey.Memory.Kept.{keep-InOrder}
use hommey.ShortTerm.{limited}
use hommey.ShortTerm.Lists.{from_end}
use hommey.Prelude.{
  All, All-In, All-keep, All-reverse, Bool-cases, List, Option, String, [], ap, arith, eq_iff, inl,
  inr, keep, none, refl, reverse-take, some, sym, true, ℕ, ◌++◌, ◌==◌, ◌∙◌, ◌∷◌, ◌≡◌, String_eq,
  ℕ_eq,
}

Before-comes_first :
    (a b : MessageRow) → Before a b → (a.session_id == b.session_id) ≡ true → comes_first b a ≡ true
Before-comes_first a b h e = ground (arith, h.0, h.1.0 e)

place-last :
    (m : MessageRow) (ns : List MessageRow)
    → All (λ n. comes_first n m ≡ true) ns
    → place m ns ≡ ns ++ m ∷ []
unfolding place
place-last m [] h = refl
place-last m (n ∷ ns) h = rw h.0 (ap (λ t. n ∷ t) (place-last m ns h.1))

-- Messages of one session.
abbrev pub AreOf : String → List MessageRow → Type 0
AreOf sid ms = All (λ m. m.session_id ≡ sid) ms

first-All :
    (sid : String) (m : MessageRow) (ms : List MessageRow)
    → m.session_id ≡ sid
    → All (Before m) ms
    → AreOf sid ms
    → All (λ n. comes_first n m ≡ true) ms
first-All sid m [] e h k = tt
first-All sid m (n ∷ ms) e h k = (
  Before-comes_first m n h.0 ((eq_iff m.session_id n.session_id).1 (e ∙ sym k.0)),
  first-All sid m ms e h.1 k.1,
)

pub newest_first-reverse :
    (sid : String) (ms : List MessageRow) → InOrder ms → AreOf sid ms → newest_first ms ≡ reverse ms
unfolding newest_first
newest_first-reverse sid [] h k = refl
newest_first-reverse sid (m ∷ ms) h k =
    let ahead = All-reverse (λ n. comes_first n m ≡ true) ms (first-All sid m ms k.0 h.0 k.1) in
    ap (place m) (newest_first-reverse sid ms h.1 k.1)
    ∙ (place-last m (reverse ms) ahead ∙ sym (reverse-cons m ms))

limit_rows-reverse :
    (limit : Option ℕ) (ms : List MessageRow)
    → reverse (limit_rows limit (reverse ms)) ≡ limited limit ms
unfolding from_end
limit_rows-reverse none ms = reverse-reverse ms
limit_rows-reverse (some n) ms = elim (Bool-cases (n == 0)) [
  | inl b ↦ rw b (reverse-reverse ms)
  | inr b ↦ rw b (reverse-take n ms)
]

abbrev pub of_session : String → Option String → Filter
of_session sid request_id = record {
  session_id = some sid;
  exclude_session_id = none;
  request_id = request_id;
}

selected-AreOf :
    (user sid : String) (r : Option String) (ms : List MessageRow)
    → AreOf sid (keep (is_selected user (of_session sid r)) ms)
selected-AreOf user sid r ms =
    All-keep _ _ ms (All-In _ ms (λ m _ e. (eq_iff m.session_id sid).0 (ground (arith, e))))

-- In a table whose messages are in order, `get_messages` of one session gives its messages in the
-- order of their insertion: all of them, or the last ones when a limit is given.
pub get_messages_lem :
    (user sid : String) (limit : Option ℕ) (request_id : Option String) (db : Db)
    → InOrder db.messages
    → get_messages user limit (of_session sid request_id) db
      ≡ limited limit (keep (is_selected user (of_session sid request_id)) db.messages)
unfolding get_messages
get_messages_lem user sid limit r db h =
    let f = of_session sid r in
    let picked = keep (is_selected user f) db.messages in
    ap (λ t. reverse (limit_rows limit t))
      (newest_first-reverse sid picked (keep-InOrder (is_selected user f) db.messages h)
        (selected-AreOf user sid r db.messages))
    ∙ limit_rows-reverse limit picked
