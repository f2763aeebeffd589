-- ===== src/Parsing/Headed.antt =====
-- rag/block_parser.py: what the entries of the walker have been read from.
use hommey.Chunker.Blocks.{is_heading}
use hommey.Parsing.Rules.{FileType, atx, is_md, is_pdf, match_heading, match_setext_underline}
use hommey.Parsing.Lines.{is_list_item, is_question, starts_bar, starts_fence}
use hommey.Parsing.Walk.{
  Entry, added, atx_of, opened, read_content, read_entry, read_registry, underline,
}
use hommey.Text.{Text, strip, is_nonempty}
use hommey.Prelude.{
  Bool-cases, List, Option-cases, [], arith, false, if◌then◌else◌, inl, inr, refl, some, take, true,
  ℕ, ◌&&◌, ◌∷◌, ◌≡◌,
}

-- The lines that a heading of this level and text has been read from.
pub data Heads (t : FileType) (level : ℕ) (text : Text) : List Text → Type 0 where
  titled :
      (line name : Text)
      → is_md t ≡ true
      → atx (strip line) ≡ some (level, name)
      → text ≡ strip name
      → Heads t level text (line ∷ [])
  underlined :
      (line next : Text)
      → is_md t ≡ true
      → match_setext_underline next ≡ some level
      → text ≡ strip line
      → Heads t level text (line ∷ next ∷ [])
  registered :
      (line name : Text)
      → match_heading line t ≡ some (level, name)
      → text ≡ (if is_pdf t then strip line else name)
      → Heads t level text (line ∷ [])

-- What an entry has been read from.
abbrev pub IsRead : FileType → Entry → Type 0
IsRead t (opened level name text lines) = Heads t level text lines
IsRead t (added block_type lines) = (is_heading block_type ≡ false) × (is_nonempty lines ≡ true)

read_content-IsRead :
    (t : FileType) (line : Text) (rest : List Text) → IsRead t (read_content t line rest).0
unfolding read_content
read_content-IsRead t line rest = elim (Bool-cases (is_question (strip line))) [
  | inl a ↦ rw a (refl, refl)
  | inr a ↦ elim (Bool-cases (starts_bar (strip line) && is_md t)) [
    | inl b ↦ rw (a, b) (refl, refl)
    | inr b ↦ elim (Bool-cases (is_list_item (strip line))) [
      | inl c ↦ rw (a, b, c) (refl, refl)
      | inr c ↦ rw (a, b, c) (refl, refl)
    ]
  ]
]

read_registry-IsRead :
    (t : FileType) (line : Text) (rest : List Text) → IsRead t (read_registry t line rest).0
unfolding read_registry
read_registry-IsRead t line rest = elim (Option-cases (match_heading line t)) [
  | inl n ↦ rw (n, read_registry) (read_content-IsRead t line rest)
  | inr (h, e) ↦ rw (e, read_registry) (Heads.registered line h.1 e refl)
]

atx_of-atx :
    (t : FileType) (s : Text) (h : ℕ × Text)
    → atx_of t s ≡ some h
    → (is_md t ≡ true) × (atx s ≡ some h)
atx_of-atx t s h e = elim (Bool-cases (is_md t)) [
  | inl b ↦ (b, rw b at e)
  | inr b ↦ absurd (ground (arith, b, e))
]

underline-next :
    (t : FileType) (rest : List Text) (level : ℕ)
    → underline t rest ≡ some level
    → (is_md t ≡ true)
      × ((next : Text) × ((take 1 rest ≡ next ∷ []) × (match_setext_underline next ≡ some level)))
underline-next t [] level e = absurd (ground (arith, e))
underline-next t (next ∷ rest) level e = elim (Bool-cases (is_md t)) [
  | inl b ↦ (b, (next, (refl, rw b at e)))
  | inr b ↦ absurd (ground (arith, b, e))
]

pub read_entry-IsRead :
    (t : FileType) (line : Text) (rest : List Text) → IsRead t (read_entry t line rest).0
unfolding read_entry
read_entry-IsRead t line rest = elim (Option-cases (atx_of t (strip line))) [
  | inr (h, e) ↦
      let (u, a) = atx_of-atx t (strip line) h e in
      rw (e, read_entry) (Heads.titled line h.1 u a refl)
  | inl a ↦ elim (Option-cases (underline t rest)) [
    | inr (level, u) ↦
        let (v, (next, (one, m))) = underline-next t rest level u in
        rw (a, u, read_entry, one) (Heads.underlined line next v m refl)
    | inl b ↦ elim (Bool-cases (starts_fence (strip line))) [
      | inl c ↦ rw (a, b, c, read_entry) (refl, refl)
      | inr c ↦ rw (a, b, c, read_entry) (read_registry-IsRead t line rest)
    ]
  ]
]
