-- ===== src/Scanner/Invariant/Trivia.antt =====
-- White space and comments keep the invariant, and their loop ends.
use yamlrocks.Common.{
  ℕ, suc, ◌≤◌, ◌<◌, Bool, false, not, ◌&&◌, ◌||◌, Bool-cases, List, ◌==◌, inl, inr, arith,
  and_parts, if◌then◌else◌,
}
use yamlrocks.Scanner.CharClass.{is_break, is_flow_indicator}
use yamlrocks.Scanner.Reader.{Reader, peek, advance, advance_line, peek_after_blanks}
use yamlrocks.Scanner.Source.{prev_is_whitespace_or_start}
use yamlrocks.Scanner.Outcome.{Step}
use yamlrocks.Scanner.Quoted.{none_or}
use yamlrocks.Scanner.Quoted.Within.{left}
use yamlrocks.Scanner.Token.{Token}
use yamlrocks.Scanner.State.{Scanner, in_flow}
use yamlrocks.Scanner.Fetch.Trivia.{
  scan_comment, next_line, tab_step, trivia_step, scan_to_next_token,
}
use yamlrocks.Scanner.Invariant.Live.{core, Live}
use yamlrocks.Scanner.Invariant.Live.Keep.{Live-on_line}
use yamlrocks.Scanner.Invariant.Reaches.{Reaches, Steps, iterate-Reaches}
use yamlrocks.Scanner.Invariant.Sizes.{
  advance-lowers, advance_line-lowers, peek-left, left-advance, left-until_line_break,
  skip_space_run-lowers,
}

-- A scanner with at most `n` characters left
abbrev pub Near : List Token → ℕ → Scanner → Type 0
Near e n s = Live e (core s) × (left s.reader ≤ n)

scan_comment-Near :
    (e : List Token) (s : Scanner)
    → Live e (core s)
    → 0 < left s.reader
    → Live e (core (scan_comment s)) × (left (scan_comment s).reader < left s.reader)
unfolding scan_comment
scan_comment-Near e s h z =
    let behind : Reader = advance s.reader in
    let a = advance-lowers s.reader z in
    let b = left-advance behind in
    let start : Reader = if peek behind == b' ' then advance behind else behind in
    let c = left-until_line_break start in
    elim (Bool-cases (peek behind == b' ')) [
      | inl p ↦ elim (Bool-cases s.record_comments) [
        | inl r ↦ rw (r, p) (h, let d = left-until_line_break (advance behind) in omega arith)
        | inr r ↦ rw (r, p) (h, let d = left-until_line_break (advance behind) in omega arith)
      ]
      | inr p ↦ elim (Bool-cases s.record_comments) [
        | inl r ↦ rw (r, p) (h, let d = left-until_line_break behind in omega arith)
        | inr r ↦ rw (r, p) (h, let d = left-until_line_break behind in omega arith)
      ]
    ]

abbrev Turn : List Token → ℕ → Scanner → Step Scanner Scanner → Type 0
Turn e n s t = Steps (Near e n) (λ s. left s.reader) (Near e n) (left s.reader) t

tab_step-Turn :
    (e : List Token) (n : ℕ) (s : Scanner)
    → Near e n s
    → 0 < left s.reader
    → Turn e n s (tab_step s)
unfolding tab_step
tab_step-Turn e n s (h, l) z =
    let a = advance-lowers s.reader z in
    let separating : Bool =
      none_or (λ c. is_break c || is_flow_indicator c) (peek_after_blanks s.reader) in
    elim (Bool-cases (not (in_flow s))) [
      | inl f ↦ rw (f) ((h, omega arith), omega arith)
      | inr f ↦ elim (Bool-cases (s.reader.pos.column == 0 && not separating)) [
        | inl c ↦ rw (f, c) tt
        | inr c ↦ rw (f, c) ((h, omega arith), omega arith)
      ]
    ]

next_line-Live : (e : List Token) (s : Scanner) → Live e (core s) → Live e (core (next_line s))
unfolding next_line
next_line-Live e s h = Live-on_line e (advance_line s.reader).pos.line s h

trivia_step-Turn : (e : List Token) (n : ℕ) (s : Scanner) → Near e n s → Turn e n s (trivia_step s)
unfolding trivia_step next_line
trivia_step-Turn e n s (h, l) = elim (Bool-cases (peek s.reader == b' ')) [
  | inl a ↦
      let k = skip_space_run-lowers s.reader a (peek-left s.reader b' ' (omega arith) a) in
      rw (a) ((h, omega arith), k)
  | inr a ↦ elim (Bool-cases (peek s.reader == b'\t')) [
    | inl b ↦ rw (a, b) (tab_step-Turn e n s (h, l) (peek-left s.reader b'\t' (omega arith) b))
    | inr b ↦ elim (Bool-cases (is_break (peek s.reader))) [
      | inl c ↦
          let k = advance_line-lowers s.reader c in
          rw (a, b, c) ((next_line-Live e s h, omega arith), k)
      | inr c ↦
          elim (Bool-cases
            (peek s.reader == b'#' && prev_is_whitespace_or_start s.source s.reader)) [
              | inl d ↦
                  let (live, k) = scan_comment-Near e s h (
                    peek-left s.reader b'#' (omega arith)
                      (and_parts (peek s.reader == b'#') _ d).0) in
                  rw (a, b, c, d) ((live, omega arith), k)
              | inr d ↦ rw (a, b, c, d) (h, l)
            ]
    ]
  ]
]

-- From a scanner that keeps the invariant `scan_to_next_token` ends, with an error or with the
-- invariant kept and at most as many characters left as before.
pub scan_to_next_token-Near :
    (e : List Token) (s : Scanner)
    → Live e (core s)
    → Reaches (Near e (left s.reader)) (scan_to_next_token s)
unfolding scan_to_next_token
scan_to_next_token-Near e s h =
    let n : ℕ = left s.reader in
    iterate-Reaches (Near e n) (λ s. left s.reader) (Near e n) trivia_step (trivia_step-Turn e n)
      (suc n) (record s { tab_before_token = false }) (h, omega arith) (omega arith)
