-- ===== src/Parsing/Ids.antt =====
-- rag/schemas.py: `_block_id` tells the blocks of a page apart.
use hommey.Headings.{HeadingStack}
use hommey.Chunker.Blocks.{Block}
use hommey.Parsing.Rules.{FileType}
use hommey.Parsing.Walk.{Entry, add_entries, added, block_id, opened, parse_blocks}
use hommey.Parsing.Kept.{parse_blocks-entries}
use hommey.Text.{Text, decimal, digits_of, codes}
use hommey.Prelude.{
  All, Bool-cases, List, Option, [], ap, arith, drop, drop-length-append, inl, inr, length, ltb,
  none, refl, some, subst, suc, sym, zero, ℕ, ◌%◌, ◌*◌, ◌++◌, ◌+◌, ◌-◌, ◌/◌, ◌<◌, ◌∙◌, ◌∷◌, ◌≡◌,
  ◌≢◌, ◌≤◌,
}

-- int(s), for the digits of a number
value_of : ℕ → Text → ℕ
value_of acc [] = acc
value_of acc (c ∷ s) = value_of (acc * 10 + (c - b'0')) s

value_of-append :
    (acc : ℕ) (s : Text) (c : ℕ) → value_of acc (s ++ c ∷ []) ≡ value_of acc s * 10 + (c - b'0')
unfolding value_of
value_of-append acc [] c = refl
value_of-append acc (d ∷ s) c = value_of-append (acc * 10 + (d - b'0')) s c

value_of-digits_of : (fuel n : ℕ) → n < fuel → value_of 0 (digits_of fuel n) ≡ n
unfolding digits_of value_of
value_of-digits_of zero n h = absurd (omega (arith, h))
value_of-digits_of (suc fuel) n h = elim (Bool-cases (ltb n 10)) [
  | inl b ↦ rw b (omega arith)
  | inr b ↦
      let big : 10 ≤ n = ground (arith, b) in
      rw b (
        value_of-append 0 (digits_of fuel (n / 10)) (b'0' + n % 10)
        ∙ omega (arith, value_of-digits_of fuel (n / 10) (omega (arith, h, big)), big))
]

decimal-injective : (m n : ℕ) → decimal m ≡ decimal n → m ≡ n
unfolding decimal
decimal-injective m n e =
    sym (value_of-digits_of (suc m) m (omega arith))
    ∙ (ap (value_of 0) e ∙ value_of-digits_of (suc n) n (omega arith))

append-cancel : (s t u : Text) → s ++ t ≡ s ++ u → t ≡ u
append-cancel s t u e =
    sym (drop-length-append s t) ∙ (ap (drop (length s)) e ∙ drop-length-append s u)

block_id-injective : (page : Option ℕ) (m n : ℕ) → block_id page m ≡ block_id page n → m ≡ n
unfolding block_id
block_id-injective none m n e = decimal-injective m n (ap (drop 1) e)
block_id-injective (some page) m n e = decimal-injective m n (
    append-cancel (codes "-b") (decimal m) (decimal n) (
      append-cancel (decimal page) (codes "-b" ++ decimal m) (codes "-b" ++ decimal n)
        (ap (drop 1) e)))

-- No two of the blocks have one id.
abbrev pub Distinct : List Block → Type 0
Distinct [] = Unit
Distinct (b ∷ bs) = All (λ c. b.block_id ≢ c.block_id) bs × Distinct bs

-- The blocks are numbered on.
abbrev IsNumbered : Option ℕ → ℕ → List Block → Type 0
IsNumbered page seq [] = Unit
IsNumbered page seq (b ∷ bs) = (b.block_id ≡ block_id page (seq + 1)) × IsNumbered page (seq + 1) bs

add_entries-IsNumbered :
    (page : Option ℕ) (seq : ℕ) (stack : HeadingStack) (es : List Entry)
    → IsNumbered page seq (add_entries page seq stack es).0
unfolding add_entries
add_entries-IsNumbered page seq stack [] = tt
add_entries-IsNumbered page seq stack (opened level name text lines ∷ es) =
    (refl, add_entries-IsNumbered page (seq + 1) _ es)
add_entries-IsNumbered page seq stack (added k lines ∷ es) =
    (refl, add_entries-IsNumbered page (seq + 1) stack es)

numbered-after :
    (page : Option ℕ) (id : Text) (k seq : ℕ) (bs : List Block)
    → id ≡ block_id page k
    → k ≤ seq
    → IsNumbered page seq bs
    → All (λ c. id ≢ c.block_id) bs
numbered-after page id k seq [] e l n = tt
numbered-after page id k seq (b ∷ bs) e l n = (
  λ same.
      let eq : k ≡ seq + 1 = block_id-injective page k (seq + 1) (sym e ∙ (same ∙ n.0)) in
      absurd (omega (arith, eq, l)),
  numbered-after page id k (seq + 1) bs e (omega (arith, l)) n.1,
)

numbered-Distinct :
    (page : Option ℕ) (seq : ℕ) (bs : List Block) → IsNumbered page seq bs → Distinct bs
numbered-Distinct page seq [] n = tt
numbered-Distinct page seq (b ∷ bs) n = (
  numbered-after page b.block_id (seq + 1) (seq + 1) bs n.0 (omega arith) n.1,
  numbered-Distinct page (seq + 1) bs n.1,
)

-- The blocks of a page have ids that differ from one another, with or without a page number.
pub parse_blocks-Distinct :
    (lines : List Text) (page : Option ℕ) (t : FileType) (stack : HeadingStack)
    (r : List Block × HeadingStack)
    → parse_blocks lines page t stack ≡ some r
    → Distinct r.0
parse_blocks-Distinct lines page t stack r e =
    let (es, w, k, _) = parse_blocks-entries lines page t stack in
    let same : add_entries page 0 stack es ≡ r = ground (arith, w, e) in
    subst (λ (x : List Block × HeadingStack). Distinct x.0) same
      (numbered-Distinct page 0 _ (add_entries-IsNumbered page 0 stack es))
