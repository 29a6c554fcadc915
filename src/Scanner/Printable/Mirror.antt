-- ===== src/Scanner/Printable/Mirror.antt =====
-- `check_printable` (src/scanner/reader.rs) and its mirror in src/emit_util.rs.
use yamlrocks.Common.{
  ℕ, ◌+◌, ◌/◌, ◌%◌, ◌<◌, Bool, true, false, or_parts, Bool-cases, Option, none, some, [], ◌∷◌, ◌++◌,
  Text, any, length, leb, ◌==◌, if◌then◌else◌, ◌≡◌, inl, inr, refl, ◌∙◌, arith,
}
use yamlrocks.Scanner.Printable.{encode, as_bytes, check_printable}
use yamlrocks.Emit.Scalar.{
  is_non_printable, escape, escaped, hex_digit, hex_2, hex_4, double_quoted_body,
  push_double_quoted,
}
use yamlrocks.Scanner.Printable.Bytes.{if-else, check-encode}

-- The offset in bytes of the first character that the emitter does not print raw.
abbrev pub first_non_printable : ℕ → Text → Option ℕ
first_non_printable i [] = none
first_non_printable i (c ∷ cs) =
    let later = first_non_printable (i + length (encode c)) cs in
    if is_non_printable c then some i else later

-- The scan of the bytes of a text from offset `i` reports the first character that
-- `is_non_printable` names, by its offset in bytes, and nothing if there is none.
pub check_printable-as_bytes :
    (i : ℕ) (t : Text) → check_printable i (as_bytes t) ≡ first_non_printable i t
unfolding as_bytes
check_printable-as_bytes i [] = unfold check_printable in refl
check_printable-as_bytes i (c ∷ cs) =
    check-encode c i (as_bytes cs)
    ∙ if-else (is_non_printable c) i (check_printable-as_bytes (i + length (encode c)) cs)

first_non_printable-none :
    (i : ℕ) (t : Text) → any is_non_printable t ≡ false → first_non_printable i t ≡ none
first_non_printable-none i [] h = refl
first_non_printable-none i (c ∷ cs) h =
    let (a, b) = or_parts (is_non_printable c) (any is_non_printable cs) h in
    rw (a) (first_non_printable-none (i + length (encode c)) cs b)

any-append :
    (p : ℕ → Bool) (s t : Text) → any p s ≡ false → any p t ≡ false → any p (s ++ t) ≡ false
any-append p [] t h k = k
any-append p (c ∷ cs) t h k =
    let (a, b) = or_parts (p c) (any p cs) h in rw (a) (any-append p cs t b k)

hex_digit-printable : (d : ℕ) → d < 16 → is_non_printable (hex_digit d) ≡ false
unfolding is_non_printable
hex_digit-printable d h = ground arith

hex_2-printable :
    (c : ℕ) → leb c 0xff ≡ true → any is_non_printable (b'\\' ∷ b'x' ∷ hex_2 c) ≡ false
hex_2-printable c h =
    rw (hex_digit-printable (c / 16) (ground arith), hex_digit-printable (c % 16) (omega arith))
      (unfold is_non_printable in refl)

hex_4-printable : (c : ℕ) → c < 0x10000 → any is_non_printable (b'\\' ∷ b'u' ∷ hex_4 c) ≡ false
hex_4-printable c h =
    rw
      (
        hex_digit-printable (c / 4096) (omega arith),
        hex_digit-printable (c / 256 % 16) (omega arith),
        hex_digit-printable (c / 16 % 16) (omega arith),
        hex_digit-printable (c % 16) (omega arith),
      )
      (unfold is_non_printable in refl)

letter_printable : (l : ℕ) → is_non_printable l ≡ false → any is_non_printable (escaped l) ≡ false
letter_printable l h = rw (h) (unfold is_non_printable in refl)

quote_printable : is_non_printable b'"' ≡ false
unfolding is_non_printable
quote_printable = refl

wide-lt : (c : ℕ) → is_non_printable c ≡ true → c < 0x10000
unfolding is_non_printable
wide-lt c n = ground arith

any-if :
    (p : ℕ → Bool) (b : Bool) (s t : Text)
    → any p s ≡ false
    → any p t ≡ false
    → any p (if b then s else t) ≡ false
any-if p true s t h k = h
any-if p false s t h k = k

-- The last arms of the escape
last-printable :
    (c : ℕ)
    → any is_non_printable (
        if is_non_printable c
        then (if leb c 0xff then b'\\' ∷ b'x' ∷ hex_2 c else b'\\' ∷ b'u' ∷ hex_4 c)
        else c ∷ [])
      ≡ false
last-printable c = elim (Bool-cases (is_non_printable c)) [
  | inr n ↦ rw (n) (rw (n) refl)
  | inl n ↦ elim (Bool-cases (leb c 0xff)) [
    | inl h ↦ rw (n, h) (hex_2-printable c h)
    | inr h ↦ rw (n, h) (hex_4-printable c (wide-lt c n))
  ]
]

escape-printable : (c : ℕ) → any is_non_printable (escape c) ≡ false
unfolding escape
escape-printable c =
    any-if is_non_printable (c == b'"') _ _
      (letter_printable b'"' (unfold is_non_printable in refl))
      (any-if is_non_printable (c == b'\\') _ _
        (letter_printable b'\\' (unfold is_non_printable in refl))
        (any-if is_non_printable (c == b'\n') _ _
          (letter_printable b'n' (unfold is_non_printable in refl))
          (any-if is_non_printable (c == b'\r') _ _
            (letter_printable b'r' (unfold is_non_printable in refl))
            (any-if is_non_printable (c == b'\t') _ _
              (letter_printable b't' (unfold is_non_printable in refl))
              (any-if is_non_printable (c == 0) _ _
                (letter_printable b'0' (unfold is_non_printable in refl)) (last-printable c))))))

body-printable : (v : Text) → any is_non_printable (double_quoted_body v) ≡ false
unfolding double_quoted_body
body-printable [] = refl
body-printable (c ∷ v) =
    any-append is_non_printable (escape c) (double_quoted_body v) (escape-printable c)
      (body-printable v)

-- The check accepts the bytes of every text that `push_double_quoted` writes, wherever they stand.
pub check_printable-push_double_quoted :
    (i : ℕ) (value : Text) → check_printable i (as_bytes (push_double_quoted [] value)) ≡ none
unfolding push_double_quoted
check_printable-push_double_quoted i value =
    check_printable-as_bytes i (push_double_quoted [] value)
    ∙ first_non_printable-none i (push_double_quoted [] value) (
        rw (quote_printable) (
          any-append is_non_printable (double_quoted_body value) (b'"' ∷ []) (body-printable value)
            (rw (quote_printable) refl)))
