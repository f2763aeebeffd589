-- ===== src/Memory/Kept.antt =====
-- context/memory_repository.py: the numbers of the messages when rows are deleted or filled in.
use hommey.Memory.Rows.{MessageRow, SessionRecord}
use hommey.Memory.Messages.{filled_in}
use hommey.Memory.Order.{InOrder, IsOrdered, is_of}
use hommey.Prelude.{
  All, All-imp, All-keep, All-trivial, All-update_where, Bool, Bool-cases, List, Option, String, [],
  arith, count, count-keep, count-update_where, inl, inr, keep, update_where, ℕ, ◌∷◌, ◌≤◌,
}

All-keep_any :
    (P : MessageRow → Type 0) (p : MessageRow → Bool) (ms : List MessageRow)
    → All P ms
    → All P (keep p ms)
All-keep_any P p ms h = All-keep p P ms (All-imp ms (λ m q _. q) h)

pub keep-InOrder : (p : MessageRow → Bool) (ms : List MessageRow) → InOrder ms → InOrder (keep p ms)
keep-InOrder p [] h = tt
keep-InOrder p (m ∷ ms) h = elim (Bool-cases (p m)) [
  | inl b ↦ rw b (All-keep_any _ p ms h.0, keep-InOrder p ms h.1)
  | inr b ↦ rw b (keep-InOrder p ms h.1)
]

-- Messages are deleted.
pub keep-IsOrdered :
    (now : ℕ) (p : MessageRow → Bool) (ss : List SessionRecord) (ms : List MessageRow)
    → IsOrdered now ss ms
    → IsOrdered now ss (keep p ms)
keep-IsOrdered now p ss ms h = record {
  order = keep-InOrder p ms h.order;
  counting =
      All-imp ss (λ s q. (All-keep_any _ p ms q.0, omega (arith, q.1, count-keep (is_of s) p ms)))
        h.counting;
  placed = All-keep_any _ p ms h.placed;
  unique = h.unique;
}

-- What a statement keeps that only fills in documents.
filled-All :
    {P : MessageRow → Type 0} (p : MessageRow → Bool) (a b : Option String) (ms : List MessageRow)
    → ((m : MessageRow) → P m → P (filled_in a b m))
    → All P ms
    → All P (update_where p (filled_in a b) ms)
filled-All p a b ms k h =
    All-update_where p (filled_in a b) ms (λ m _ _ q. k m q) (All-trivial ms) h

filled-InOrder :
    (p : MessageRow → Bool) (a b : Option String) (ms : List MessageRow)
    → InOrder ms
    → InOrder (update_where p (filled_in a b) ms)
filled-InOrder p a b [] h = tt
filled-InOrder p a b (m ∷ ms) h =
    let rest = filled-All p a b ms (λ n q. q) h.0 in
    elim (Bool-cases (p m)) [
      | inl e ↦ rw e (rest, filled-InOrder p a b ms h.1)
      | inr e ↦ rw e (rest, filled-InOrder p a b ms h.1)
    ]

filled-count :
    (s : SessionRecord) (p : MessageRow → Bool) (a b : Option String) (ms : List MessageRow)
    → count (is_of s) (update_where p (filled_in a b) ms) ≤ count (is_of s) ms
filled-count s p a b ms =
    count-update_where (is_of s) p (filled_in a b) ms (λ m _ _ e. e) (All-trivial ms)

-- Documents are filled in.
pub filled-IsOrdered :
    (now : ℕ) (p : MessageRow → Bool) (a b : Option String) (ss : List SessionRecord)
    (ms : List MessageRow)
    → IsOrdered now ss ms
    → IsOrdered now ss (update_where p (filled_in a b) ms)
filled-IsOrdered now p a b ss ms h = record {
  order = filled-InOrder p a b ms h.order;
  counting =
      All-imp ss
        (λ s q. (filled-All p a b ms (λ m k. k) q.0, omega (arith, q.1, filled-count s p a b ms)))
        h.counting;
  placed = filled-All p a b ms (λ m k. k) h.placed;
  unique = h.unique;
}
