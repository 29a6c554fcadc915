-- ===== src/Scanner/Quoted/Double/Escapes.antt =====
-- The escapes that `double_quoted_body` (src/emit_util.rs) writes, read by `scan_double_quoted`.
use yamlrocks.Common.{
  ℕ, ◌+◌, ◌*◌, ◌/◌, ◌%◌, ◌≤◌, ◌<◌, true, false, Bool-cases, some, [], ◌∷◌, ◌++◌, Text, leb, ◌==◌,
  ==_iff, leb→le, if◌then◌else◌, ◌≡◌, ◌⊎◌, inl, inr, refl, sym, subst, ◌∙◌, arith,
}
use yamlrocks.Scanner.CharClass.{is_break}
use yamlrocks.Scanner.Reader.{Span, past_text}
use yamlrocks.Scanner.Outcome.{ok}
use yamlrocks.Scanner.Quoted.Double.{
  scan_escape, scan_unicode_escape, letter_escape, hex_value, from_u32,
}
use yamlrocks.Emit.Scalar.{escape, escaped, is_non_printable, hex_digit, hex_2, hex_4}

-- A text behind a backslash that stands for a character.
abbrev pub Encodes : Text → ℕ → Type 0
Encodes tail c =
    (start : Span) (buf : Text) (cs : Text) (s : Span)
    → scan_escape start buf (tail ++ cs) s
      ≡ ok (buf ++ c ∷ [], record { rest = cs; pos = past_text tail s })

abbrev pub Escaped : ℕ → Type 0
Escaped c = (tail : Text) × (escape c ≡ b'\\' ∷ tail) × Encodes tail c

-- A character that stands for itself
abbrev pub Plain : ℕ → Type 0
Plain c =
    (escape c ≡ c ∷ []) × ((c == b'"') ≡ false) × ((c == b'\\') ≡ false) × (is_break c ≡ false)

letter-Escaped :
    (c letter : ℕ) → escape c ≡ escaped letter → letter_escape letter ≡ some c → Escaped c
unfolding scan_escape
letter-Escaped c letter e h = (letter ∷ [], e, λ start buf cs s. rw (h) refl)

hex_value-hex_digit : (d : ℕ) → d < 16 → hex_value (hex_digit d) ≡ some d
hex_value-hex_digit d h = ground arith

from_u32-byte : (c : ℕ) → c ≤ 0xff → from_u32 c ≡ some c
from_u32-byte c h = ground arith

x_Encodes : (c : ℕ) → c ≤ 0xff → is_non_printable c ≡ true → Encodes (b'x' ∷ hex_2 c) c
unfolding scan_escape scan_unicode_escape is_non_printable
x_Encodes c h n start buf cs s =
    rw
      (
        hex_value-hex_digit (c / 16) (omega arith),
        hex_value-hex_digit (c % 16) (omega arith),
        (let e : (0 + c / 16) * 16 + c % 16 ≡ c = omega arith in e),
        from_u32-byte c h,
      )
      refl

u_Encodes : (c : ℕ) → (c ≡ 0xfffe) ⊎ (c ≡ 0xffff) → Encodes (b'u' ∷ hex_4 c) c
unfolding scan_escape scan_unicode_escape
u_Encodes c (inl h) = subst (λ c. Encodes (b'u' ∷ hex_4 c) c) (sym h) (λ start buf cs s. refl)
u_Encodes c (inr h) = subst (λ c. Encodes (b'u' ∷ hex_4 c) c) (sym h) (λ start buf cs s. refl)

non_printable_wide :
    (c : ℕ) → is_non_printable c ≡ true → leb c 0xff ≡ false → (c ≡ 0xfffe) ⊎ (c ≡ 0xffff)
unfolding is_non_printable
non_printable_wide c n h = ground arith

eq-cases : (c d : ℕ) → (c ≡ d) ⊎ ((c == d) ≡ false)
eq-cases c d = elim (Bool-cases (c == d)) [ inl h ↦ inl ((==_iff c d).0 h) | inr h ↦ inr h ]

hex-Escaped :
    (c : ℕ)
    → is_non_printable c ≡ true
    → escape c ≡ (if leb c 0xff then b'\\' ∷ b'x' ∷ hex_2 c else b'\\' ∷ b'u' ∷ hex_4 c)
    → Escaped c
hex-Escaped c n e = elim (Bool-cases (leb c 0xff)) [
  | inl h ↦ (b'x' ∷ hex_2 c, e ∙ rw (h) refl, x_Encodes c (leb→le c 0xff h) n)
  | inr h ↦ (b'u' ∷ hex_4 c, e ∙ rw (h) refl, u_Encodes c (non_printable_wide c n h))
]

-- What is left when no character of the `match` but tab and NUL is told apart.
unspecial :
    (c : ℕ)
    → (c == b'"') ≡ false
    → (c == b'\\') ≡ false
    → (c == b'\n') ≡ false
    → (c == b'\r') ≡ false
    → Plain c ⊎ Escaped c
unfolding escape is_break
unspecial c h1 h2 h3 h4 = elim (eq-cases c b'\t') [
  | inl h ↦ inr (subst Escaped (sym h) (letter-Escaped b'\t' b't' refl refl))
  | inr h5 ↦ elim (eq-cases c 0) [
    | inl h ↦ inr (subst Escaped (sym h) (letter-Escaped 0 b'0' refl refl))
    | inr h6 ↦ elim (Bool-cases (is_non_printable c)) [
      | inl n ↦ inr (hex-Escaped c n (rw (h1, h2, h3, h4, h5, h6, n) refl))
      | inr n ↦ inl (rw (h1, h2, h3, h4, h5, h6, n) refl, h1, h2, rw (h3, h4) refl)
    ]
  ]
]

-- Every character is written as itself or as an escape that reads back as it.
pub escape-Plain-or-Escaped : (c : ℕ) → Plain c ⊎ Escaped c
unfolding escape is_break
escape-Plain-or-Escaped c = elim (eq-cases c b'"') [
  | inl h ↦ inr (subst Escaped (sym h) (letter-Escaped b'"' b'"' refl refl))
  | inr h1 ↦ elim (eq-cases c b'\\') [
    | inl h ↦ inr (subst Escaped (sym h) (letter-Escaped b'\\' b'\\' refl refl))
    | inr h2 ↦ elim (eq-cases c b'\n') [
      | inl h ↦ inr (subst Escaped (sym h) (letter-Escaped b'\n' b'n' refl refl))
      | inr h3 ↦ elim (eq-cases c b'\r') [
        | inl h ↦ inr (subst Escaped (sym h) (letter-Escaped b'\r' b'r' refl refl))
        | inr h4 ↦ unspecial c h1 h2 h3 h4
      ]
    ]
  ]
]
