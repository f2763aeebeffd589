-- ===== src/Text.antt =====
-- Python's `str` as code points, for the code that walks its text (rag/chunker.py).
use Prim.Native.Char.{code}
use mathlib.Core.List.{reverse}
use hommey.Prelude.{
  Bool, Comparable, List, String, [], any, arith, drop, eqb, eqb_iff, false, if◌then◌else◌, leb,
  length, ltb, not, refl, suc, true, zero, ℕ, ◌%◌, ◌&&◌, ◌++◌, ◌+◌, ◌-◌, ◌/◌, ◌==◌, ◌||◌, ◌↔◌, ◌∷◌,
  ◌≡◌, String_eq, ℕ_eq,
}

abbrev pub Text : Type 0
Text = List ℕ

abbrev pub codes : String → Text
codes String.[] = []
codes (String.◌∷◌ c s) = code c ∷ codes s

-- bool(text)
abbrev pub is_nonempty {ℓ} : {A : Type ℓ} → List A → Bool
is_nonempty [] = false
is_nonempty (x ∷ xs) = true

-- str.isspace of one character
unfoldable pub is_space : ℕ → Bool
is_space c =
    leb 9 c && leb c 13
    || leb 28 c && leb c 32
    || c == 0x85
    || c == 0xa0
    || c == 0x1680
    || leb 0x2000 c && leb c 0x200a
    || c == 0x2028
    || c == 0x2029
    || c == 0x202f
    || c == 0x205f
    || c == 0x3000

-- `\d`: the decimal digits of Unicode stand in tens from each of these zeros.
abbrev pub decimal_zeros : List ℕ
decimal_zeros =
    0x30 ∷ 0x660 ∷ 0x6f0 ∷ 0x7c0 ∷ 0x966 ∷ 0x9e6 ∷ 0xa66 ∷ 0xae6 ∷ 0xb66 ∷ 0xbe6 ∷ 0xc66 ∷ 0xce6
    ∷ 0xd66 ∷ 0xde6 ∷ 0xe50 ∷ 0xed0 ∷ 0xf20 ∷ 0x1040 ∷ 0x1090 ∷ 0x17e0 ∷ 0x1810 ∷ 0x1946 ∷ 0x19d0
    ∷ 0x1a80 ∷ 0x1a90 ∷ 0x1b50 ∷ 0x1bb0 ∷ 0x1c40 ∷ 0x1c50 ∷ 0xa620 ∷ 0xa8d0 ∷ 0xa900 ∷ 0xa9d0
    ∷ 0xa9f0 ∷ 0xaa50 ∷ 0xabf0 ∷ 0xff10 ∷ 0x104a0 ∷ 0x10d30 ∷ 0x11066 ∷ 0x110f0 ∷ 0x11136 ∷ 0x111d0
    ∷ 0x112f0 ∷ 0x11450 ∷ 0x114d0 ∷ 0x11650 ∷ 0x116c0 ∷ 0x11730 ∷ 0x118e0 ∷ 0x11950 ∷ 0x11c50
    ∷ 0x11d50 ∷ 0x11da0 ∷ 0x16a60 ∷ 0x16ac0 ∷ 0x16b50 ∷ 0x1d7ce ∷ 0x1d7d8 ∷ 0x1d7e2 ∷ 0x1d7ec
    ∷ 0x1d7f6 ∷ 0x1e140 ∷ 0x1e2f0 ∷ 0x1e950 ∷ 0x1fbf0 ∷ []

unfoldable pub is_decimal : ℕ → Bool
is_decimal c = any (λ z. leb z c && ltb c (z + 10)) decimal_zeros

-- s.lstrip(chars) and s.strip(chars), by a test of the character
unfoldable pub lstrip_of : (ℕ → Bool) → Text → Text
lstrip_of p [] = []
lstrip_of p (c ∷ s) = if p c then lstrip_of p s else c ∷ s

unfoldable pub strip_of : (ℕ → Bool) → Text → Text
unfolding lstrip_of
strip_of p s = reverse (lstrip_of p (reverse (lstrip_of p s)))

-- The length of the longest prefix of characters that pass.
unfoldable pub run_length : (ℕ → Bool) → Text → ℕ
run_length p [] = 0
run_length p (c ∷ s) = if p c then suc (run_length p s) else 0

abbrev pub skip_spaces : Text → Text
skip_spaces s = drop (run_length is_space s) s

-- the ends of lines, of which `\r\n` is one
is_line_break : ℕ → Bool
is_line_break c =
    leb 10 c && leb c 13 || leb 28 c && leb c 30 || c == 0x85 || c == 0x2028 || c == 0x2029

split_from : Text → Bool → Text → List Text
split_from line after_cr [] = if is_nonempty line then reverse line ∷ [] else []
split_from line after_cr (c ∷ s) =
    let passed = c == 10 && after_cr in
    let rest = split_from (if passed || is_line_break c then [] else c ∷ line) (c == 13) s in
    if is_line_break c && not passed then reverse line ∷ rest else rest

-- s.splitlines()
unfoldable pub splitlines : Text → List Text
unfolding split_from is_line_break
splitlines s = split_from [] false s

unfoldable pub lstrip : Text → Text
unfolding is_space
lstrip [] = []
lstrip (c ∷ s) = if is_space c then lstrip s else c ∷ s

unfoldable pub strip : Text → Text
unfolding lstrip
strip s = reverse (lstrip (reverse (lstrip s)))

-- sep.join(parts)
unfoldable pub join : Text → List Text → Text
join sep [] = []
join sep (p ∷ []) = p
join sep (p ∷ q ∷ ps) = p ++ (sep ++ join sep (q ∷ ps))

-- text[-n:], for n > 0
unfoldable pub last_n : ℕ → Text → Text
last_n n s = drop (length s - n) s

-- s == t
abbrev pub text_eqb : Text → Text → Bool
text_eqb [] [] = true
text_eqb (c ∷ s) (d ∷ t) = eqb c d && text_eqb s t
text_eqb _ _ = false

pub empty_of {ℓ} : {A : Type ℓ} (xs : List A) → is_nonempty xs ≡ false → xs ≡ []
empty_of [] h = refl
empty_of (x ∷ xs) h = cc

-- str(n)
unfoldable pub digits_of : ℕ → ℕ → Text
digits_of zero n = []
digits_of (suc fuel) n =
    let rest = digits_of fuel (n / 10) in
    if ltb n 10 then (b'0' + n) ∷ [] else rest ++ (b'0' + n % 10) ∷ []

unfoldable pub decimal : ℕ → Text
unfolding digits_of
decimal n = digits_of (suc n) n

pub text_eqb_iff : (s t : Text) → (text_eqb s t ≡ true) ↔ (s ≡ t)
text_eqb_iff [] [] = (λ _. refl, λ _. refl)
text_eqb_iff [] (d ∷ t) = (λ h. absurd (cc), λ h. absurd (cc))
text_eqb_iff (c ∷ s) [] = (λ h. absurd (cc), λ h. absurd (cc))
text_eqb_iff (c ∷ s) (d ∷ t) = ground (arith, text_eqb_iff s t, eqb_iff c d)

instance abbrev pub Text_eq : Comparable Text
Text_eq = record { test = text_eqb; test_iff = text_eqb_iff }
