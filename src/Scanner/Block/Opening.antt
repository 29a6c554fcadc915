-- ===== src/Scanner/Block/Opening.antt =====
-- The loops over the header of a block scalar, and over its first lines, end.
use yamlrocks.Common.{
  ℕ, ◌≤◌, ◌<◌, true, Bool-cases, [], ◌∷◌, Text, length, is_empty, not, ◌&&◌, ◌||◌, ◌==◌, between,
  ◌≡◌, inl, inr, arith,
}
use yamlrocks.Scanner.CharClass.{is_break}
use yamlrocks.Scanner.Reader.{Reader, is_eof, peek, take_run}
use yamlrocks.Scanner.Source.{Source, prev_is_whitespace_or_start}
use yamlrocks.Scanner.Quoted.Within.{left, left-take_run}
use yamlrocks.Scanner.Block.{Header, indicator_step, is_none, header_rest_step, detect_step}
use yamlrocks.Scanner.Invariant.Reaches.{Steps}
use yamlrocks.Scanner.Invariant.Sizes.{advance-lowers, advance_line-lowers, is_eof-left}

pub indicator_step-Steps :
    (n : ℕ) (h : Header)
    → left h.reader ≤ n
    → Steps
        (λ h. left h.reader ≤ n)
        (λ h. left h.reader)
        (λ h. left h.reader ≤ n)
        (left h.reader)
        (indicator_step h)
unfolding indicator_step
indicator_step-Steps n h l = elim (Bool-cases (is_eof h.reader)) [
  | inl e ↦ rw (e) l
  | inr e ↦
      let a = advance-lowers h.reader (is_eof-left h.reader e) in
      elim (Bool-cases (peek h.reader == b'-' && not h.seen_chomping)) [
        | inl b ↦ rw (e, b) (omega arith, omega arith)
        | inr b ↦ elim (Bool-cases (peek h.reader == b'+' && not h.seen_chomping)) [
          | inl c ↦ rw (e, b, c) (omega arith, omega arith)
          | inr c ↦
              elim (Bool-cases (between b'1' b'9' (peek h.reader) && is_none h.explicit_indent)) [
                | inl d ↦ rw (e, b, c, d) (omega arith, omega arith)
                | inr d ↦ rw (e, b, c, d) l
              ]
        ]
      ]
]

pub header_rest_step-Steps :
    (src : Source) (n : ℕ) (r : Reader)
    → left r ≤ n
    → Steps (λ r. left r ≤ n) left (λ r. left r ≤ n) (left r) (header_rest_step src r)
unfolding header_rest_step
header_rest_step-Steps src n r l = elim (Bool-cases (is_eof r)) [
  | inl e ↦ rw (e) l
  | inr e ↦
      let a = advance-lowers r (is_eof-left r e) in
      elim (Bool-cases (peek r == b' ' || peek r == b'\t')) [
        | inl b ↦ rw (e, b) (omega arith, omega arith)
        | inr b ↦ elim (Bool-cases (peek r == b'#' && prev_is_whitespace_or_start src r)) [
          | inl c ↦ let t = left-take_run is_break r.rest r.pos in rw (e, b, c) (omega arith)
          | inr c ↦ elim (Bool-cases (is_break (peek r))) [
            | inl d ↦ rw (e, b, c, d) l
            | inr d ↦ elim (Bool-cases (peek r == b'#')) [
              | inl f ↦ rw (e, b, c, d, f) tt
              | inr f ↦ rw (e, b, c, d, f) tt
            ]
          ]
        ]
      ]
]

-- The end is in front of nothing.
pub at_end : (r r' : Reader) → is_eof r ≡ true → 0 < left r' → left r < left r'
at_end r r' e z = none_left r.rest e
  where
    none_left : (text : Text) → is_empty text ≡ true → length text < left r'
    none_left [] e = z
    none_left (c ∷ cs) e = cc

pub detect_step-Steps :
    (p : ℕ × Reader)
    → Steps (λ _. Unit) (λ p. left p.1) (λ (_ : ℕ × ℕ). Unit) (left p.1) (detect_step p)
unfolding detect_step
detect_step-Steps (deepest, r) =
    let run = take_run (λ c. not (c == b' ')) r.rest r.pos in
    let t = left-take_run (λ c. not (c == b' ')) r.rest r.pos in
    elim (Bool-cases (is_eof r)) [
      | inl e ↦ rw (e) tt
      | inr e ↦
          let z = is_eof-left r e in
          elim (Bool-cases (is_eof run.1)) [
            | inl b ↦ rw (e, b) (tt, at_end run.1 r b z)
            | inr b ↦ elim (Bool-cases (is_break (peek run.1))) [
              | inl c ↦ let a = advance_line-lowers run.1 c in rw (e, b, c) (tt, omega arith)
              | inr c ↦ rw (e, b, c) tt
            ]
          ]
    ]
