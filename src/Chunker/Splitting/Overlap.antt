-- ===== src/Chunker/Splitting/Overlap.antt =====
-- The overlap that rag/chunker.py carries from one piece of a paragraph into the next.
use hommey.Chunker.Splitting.{from_last_boundary, is_boundary, tail_overlap}
use hommey.Text.{Text, is_space, last_n, lstrip}
use hommey.Prelude.{
  [], arith, drop, drop-append, false, length, length-append, max, some, true, ℕ, ◌*◌, ◌++◌, ◌-◌,
  ◌∷◌, ◌≡◌, ◌≤◌,
}

from_last_boundary-end :
    (s : Text) (c : ℕ) → is_boundary c ≡ true → from_last_boundary (s ++ c ∷ []) ≡ some (c ∷ [])
unfolding from_last_boundary
from_last_boundary-end [] c h = rw h
from_last_boundary-end (x ∷ s) c h = rw (from_last_boundary-end s c h)

last_n-end :
    (n : ℕ) (s : Text) (c : ℕ) → 1 ≤ n → (t : Text) × (last_n n (s ++ c ∷ []) ≡ t ++ c ∷ [])
unfolding last_n
last_n-end n s c h =
    let k = length (s ++ c ∷ []) - n in
    let short : k ≤ length s = omega (arith, length-append s (c ∷ [])) in
    (drop k s, drop-append k s (c ∷ []) short)

is_boundary-is_space : (c : ℕ) → is_boundary c ≡ true → is_space c ≡ false
unfolding is_boundary is_space
is_boundary-is_space c h = ground arith

-- After a text that ends in a mark that closes a sentence, the overlap is that mark alone, whatever
-- number of tokens is asked for.
pub tail_overlap-end :
    (s : Text) (c overlap_tokens : ℕ)
    → is_boundary c ≡ true
    → tail_overlap (s ++ c ∷ []) overlap_tokens ≡ c ∷ []
unfolding tail_overlap lstrip
tail_overlap-end s c n h =
    let w = last_n-end (max 1 (n * 2)) s c (omega arith) in
    rw (w.1, from_last_boundary-end w.0 c h, is_boundary-is_space c h)
