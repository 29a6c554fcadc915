-- ===== src/Scanner/Invariant/Control.antt =====
-- An input with a character that YAML does not print is rejected before any token.
use yamlrocks.Common.{
  ℕ, suc, ◌+◌, ◌<◌, Bool, true, false, Bool-cases, some, [], ◌∷◌, ◌++◌, Text, length, any, ltb,
  ◌==◌, ◌≡◌, refl, ap, ◌∙◌, inl, inr, arith, lt→ltb, or_parts,
}
use yamlrocks.Emit.Scalar.{is_non_printable}
use yamlrocks.Scanner.Reader.{Span, len_utf8, past}
use yamlrocks.Scanner.Source.{new_reader}
use yamlrocks.Scanner.Outcome.{control_character, err}
use yamlrocks.Scanner.Printable.{encode, as_bytes, check_printable}
use yamlrocks.Scanner.Printable.Mirror.{first_non_printable, check_printable-as_bytes}
use yamlrocks.Scanner.State.{new}
use yamlrocks.Scanner.Fetch.Queue.{passed, non_printable_error, fetch_stream_start, next_token}
use yamlrocks.Scanner.Invariant.Prefix.{tokens_from, first_tokens}

len_utf8-encode : (c : ℕ) → len_utf8 c ≡ length (encode c)
unfolding len_utf8 encode
len_utf8-encode c = elim (Bool-cases (ltb c 0x80)) [
  | inl a ↦ rw (a) refl
  | inr a ↦ elim (Bool-cases (ltb c 0x800)) [
    | inl b ↦ rw (a, b) refl
    | inr b ↦ elim (Bool-cases (ltb c 0x10000)) [
      | inl d ↦ rw (a, b, d) refl
      | inr d ↦ rw (a, b, d) refl
    ]
  ]
]

len_utf8-positive : (c : ℕ) → 0 < len_utf8 c
unfolding len_utf8
len_utf8-positive c = ground arith

-- `str::len`
abbrev pub bytes : Text → ℕ
bytes [] = 0
bytes (c ∷ cs) = len_utf8 c + bytes cs

first_non_printable-append :
    (i : ℕ) (front : Text) (c : ℕ) (rest : Text)
    → any is_non_printable front ≡ false
    → is_non_printable c ≡ true
    → first_non_printable i (front ++ c ∷ rest) ≡ some (i + bytes front)
first_non_printable-append i [] c rest f n = rw (n) (ap some (omega arith))
first_non_printable-append i (d ∷ ds) c rest f n =
    let (first, others) = or_parts (is_non_printable d) (any is_non_printable ds) f in
    let ih = first_non_printable-append (i + length (encode d)) ds c rest others n in
    let e = len_utf8-encode d in rw (first) (ih ∙ ap some (omega arith))

offset-passed :
    (prev_cr : Bool) (c : ℕ) (s : Span) → (passed prev_cr c s).offset ≡ s.offset + len_utf8 c
unfolding passed past
offset-passed prev_cr c s = elim (Bool-cases (c == b'\n')) [
  | inl a ↦ elim (Bool-cases prev_cr) [ inl b ↦ rw (a, b) refl | inr b ↦ rw (a, b) refl ]
  | inr a ↦ elim (Bool-cases (c == b'\r')) [ inl b ↦ rw (a, b) refl | inr b ↦ rw (a, b) refl ]
]

not_below : (a b : ℕ) → a ≡ b → ltb a b ≡ false
not_below a b h = ground arith

non_printable_error-append :
    (prev_cr : Bool) (offset : ℕ) (s : Span) (front : Text) (c : ℕ) (rest : Text)
    → s.offset + bytes front ≡ offset
    → (span : Span) × (non_printable_error prev_cr offset s (front ++ c ∷ rest)
        ≡ err (control_character c) span)
      × (span.offset ≡ offset)
unfolding non_printable_error
non_printable_error-append prev_cr offset s [] c rest h =
    (s, rw (not_below s.offset offset (omega arith)) refl, omega arith)
non_printable_error-append prev_cr offset s (d ∷ ds) c rest h =
    let o = offset-passed prev_cr d s in
    let z = len_utf8-positive d in
    let (span, e, k) =
      non_printable_error-append (d == b'\r') offset (passed prev_cr d s) ds c rest (omega arith) in
    (span, rw (lt→ltb s.offset offset (omega arith)) e, k)

-- When a character that YAML does not print stands in an input, behind its byte order mark, with only
-- printable ones in front of it, the scanner hands out no token: it gives an error that names this
-- character and the offset of its first byte.
pub first_tokens-control :
    (n : ℕ) (input front : Text) (c : ℕ) (rest : Text)
    → (new_reader input).rest ≡ front ++ c ∷ rest
    → any is_non_printable front ≡ false
    → is_non_printable c ≡ true
    → (span : Span) × (first_tokens (suc n) input ≡ err (control_character c) span)
      × (span.offset ≡ (new_reader input).pos.offset + bytes front)
unfolding first_tokens tokens_from next_token new fetch_stream_start
first_tokens-control n input front c rest q f p =
    let start : Span = (new_reader input).pos in
    let found : check_printable start.offset (as_bytes (new_reader input).rest)
        ≡ some (start.offset + bytes front) =
      check_printable-as_bytes start.offset (new_reader input).rest
      ∙ (ap (first_non_printable start.offset) q
          ∙ first_non_printable-append start.offset front c rest f p) in
    let (span, e, k) =
      non_printable_error-append false (start.offset + bytes front) start front c rest refl in
    (span, rw (found, q, e) refl, k)
