-- ===== src/Scanner/Quoted/Double/Total.antt =====
-- The loops of `scan_double_quoted` end.
use yamlrocks.Common.{
  ℕ, zero, suc, ◌+◌, ◌*◌, Bool-cases, Option, none, some, [], ◌∷◌, ◌++◌, Text, length, take, ◌==◌,
  inl, inr, arith,
}
use yamlrocks.Common.Int.{ℤ}
use yamlrocks.Scanner.CharClass.{is_break}
use yamlrocks.Scanner.Reader.{
  Span, Reader, past, advance, advance_line, double_quoted_stop, take_run,
}
use yamlrocks.Scanner.Outcome.{
  Scan, ok, err, stuck, iterate, Within, Within-≤, Lowers, Lowers-≤, iterate-Within, >>=-Within,
}
use yamlrocks.Scanner.Quoted.{at_document_marker, skip_spaces, buffer_of}
use yamlrocks.Scanner.Quoted.Within.{
  left, left-take_run, left-advance_text, left-advance_line, left-skip_spaces,
  advance_line-is_break, fold_quoted_break-Within,
}
use yamlrocks.Scanner.Quoted.Double.{
  State, after_fold, after_escape, stopped, step, scan_double_quoted, scan_escape,
  scan_unicode_escape, unicode_digits, code_point, from_u32, hex_value, hex_step, letter_escape,
  lettered, digits_of, numeric_escape, line_continuation, continuation_step, unmarked, pushed,
  push_dquoted_run,
}

abbrev size : State → ℕ
size st = left st.reader

unicode_digits-Within :
    (n : ℕ) (start : Span) (code : ℕ) (rest : Text) (s : Span)
    → Within (length rest) (unicode_digits n start code rest s)
unicode_digits-Within zero start code rest s = code_point-Within (from_u32 code)
  where
    code_point-Within :
        (o : Option ℕ)
        → Within (length rest) (code_point code start (record { rest = rest; pos = s }) o)
    code_point-Within none = tt
    code_point-Within (some c) = omega arith
unicode_digits-Within (suc n) start code [] s = tt
unicode_digits-Within (suc n) start code (c ∷ cs) s =
    hex_step-Within (hex_value c) (λ code'. unicode_digits n start code' cs (past c s))
      (λ code'.
        Within-≤ (unicode_digits n start code' cs (past c s)) (omega arith)
          (unicode_digits-Within n start code' cs (past c s)))
  where
    hex_step-Within :
        (o : Option ℕ) (k : ℕ → Scan (ℕ × Reader))
        → ((code' : ℕ) → Within (suc (length cs)) (k code'))
        → Within (suc (length cs)) (hex_step o c code cs s k)
    hex_step-Within none k w = tt
    hex_step-Within (some d) k w = w (code * 16 + d)

continuation_step-Lowers :
    (buf rest : Text) (s : Span)
    → Lowers
        (λ p. left p.1)
        (length rest)
        (continuation_step (buf, record { rest = rest; pos = s }))
continuation_step-Lowers buf [] s = omega arith
continuation_step-Lowers buf (c ∷ cs) s =
    let r : Reader = record { rest = c ∷ cs; pos = s } in
    let l = left-skip_spaces (advance_line r) in
    elim (Bool-cases (is_break c)) [
      | inl b ↦ let k = advance_line-is_break c cs s b in rw (b) (omega arith)
      | inr b ↦ rw (b) (omega arith)
    ]

line_continuation-Within :
    (start : Span) (buf : Text) (r : Reader) → Within (left r) (line_continuation start buf r)
unfolding line_continuation
line_continuation-Within start buf r =
    let first = skip_spaces (advance_line r) in
    let l = left-skip_spaces (advance_line r) in
    let k = left-advance_line r in
    >>=-Within (left r) (iterate continuation_step (suc (left first)) (buf, first)) (unmarked start)
      (Within-≤ (iterate continuation_step (suc (left first)) (buf, first)) (omega arith) (
        iterate-Within continuation_step (λ p. left p.1)
          (λ p. continuation_step-Lowers p.0 p.1.rest p.1.pos) (suc (left first)) (buf, first)
          (omega arith)))
      (λ buf' r' w. elim (Bool-cases (at_document_marker r')) [
        | inl h ↦ rw (h) tt
        | inr h ↦ rw (h) w
      ])

scan_escape-Within :
    (start : Span) (buf rest : Text) (s : Span)
    → Within (length rest) (scan_escape start buf rest s)
unfolding scan_escape scan_unicode_escape
scan_escape-Within start buf [] s = tt
scan_escape-Within start buf (c ∷ cs) s = lettered-Within (letter_escape c)
  where
    numeric-Within : (o : Option ℕ) → Within (suc (length cs)) (numeric_escape start buf c cs s o)
    numeric-Within (some n) =
        >>=-Within (suc (length cs)) (unicode_digits n start 0 cs (past c s)) (pushed buf)
          (Within-≤ (unicode_digits n start 0 cs (past c s)) (omega arith)
            (unicode_digits-Within n start 0 cs (past c s)))
          (λ d r w. w)
    numeric-Within none = elim (Bool-cases (is_break c)) [
      | inl b ↦ rw (b) (line_continuation-Within start buf (record { rest = c ∷ cs; pos = s }))
      | inr b ↦ rw (b) tt
    ]

    lettered-Within : (o : Option ℕ) → Within (suc (length cs)) (lettered start buf c cs s o)
    lettered-Within (some e) = omega arith
    lettered-Within none = numeric-Within (digits_of c)

after_fold-Lowers :
    (start : Span) (boundary n : ℕ) (m : Scan (Text × Reader))
    → Within n m
    → Lowers size (suc n) (after_fold start boundary m)
after_fold-Lowers start boundary n (ok (buf, r)) w = elim (Bool-cases (at_document_marker r)) [
  | inl h ↦ rw (h) tt
  | inr h ↦ rw (h) (omega arith)
]
after_fold-Lowers start boundary n (err m s) w = tt
after_fold-Lowers start boundary n stuck w = w

after_escape-Lowers :
    (n : ℕ) (m : Scan (Text × Reader)) → Within n m → Lowers size (suc n) (after_escape m)
after_escape-Lowers n (ok (buf, r)) w = omega arith
after_escape-Lowers n (err m s) w = tt
after_escape-Lowers n stuck w = w

stopped-Lowers :
    (parent : ℤ) (start : Span) (buffer : Option Text) (boundary : ℕ) (run rest : Text) (s : Span)
    → Lowers size (length rest) (stopped parent start buffer boundary run rest s)
stopped-Lowers parent start buffer boundary run [] s = tt
stopped-Lowers parent start buffer boundary run (c ∷ cs) s =
    let (buf, boundary') = push_dquoted_run (buffer_of buffer) boundary run in
    elim (Bool-cases (c == b'"')) [
      | inl q ↦ rw (q) (omega arith)
      | inr q ↦ elim (Bool-cases (c == b'\\')) [
        | inl e ↦
            rw (q, e)
              (after_escape-Lowers (length cs) _ (scan_escape-Within start buf cs (past c s)))
        | inr e ↦ elim (Bool-cases (is_break c)) [
          | inl b ↦
              rw (q, e, b)
                (after_fold-Lowers start boundary' (length cs) _
                  (fold_quoted_break-Within c cs s (take boundary' buf) parent b))
          | inr b ↦ rw (q, e, b) (omega arith)
        ]
      ]
    ]

step-Lowers :
    (parent : ℤ) (start : Span) (st : State) → Lowers size (size st) (step parent start st)
unfolding step
step-Lowers parent start st =
    let run = take_run double_quoted_stop st.reader.rest st.reader.pos in
    Lowers-≤ size
      (stopped parent start st.buffer st.nonblank_len (st.run ++ run.0) run.1.rest run.1.pos)
      (left-take_run double_quoted_stop st.reader.rest st.reader.pos)
      (stopped-Lowers parent start st.buffer st.nonblank_len (st.run ++ run.0) run.1.rest run.1.pos)

-- The opening quote is taken.
pub scan_double_quoted-advance :
    (parent : ℤ) (r : Reader) → Within (left (advance r)) (scan_double_quoted parent r)
unfolding scan_double_quoted
scan_double_quoted-advance parent r =
    let l = left-advance_text r.rest r.pos in
    iterate-Within (step parent r.pos) size (step-Lowers parent r.pos) (suc (length r.rest))
      (record { buffer = none; nonblank_len = 0; run = []; reader = advance r }) (omega arith)

-- On every input `scan_double_quoted` ends, with an error or with a value and a reader that has at
-- most as many characters left as the one it was given.
pub scan_double_quoted-Within :
    (parent : ℤ) (r : Reader) → Within (length r.rest) (scan_double_quoted parent r)
scan_double_quoted-Within parent r =
    Within-≤ (scan_double_quoted parent r) (left-advance_text r.rest r.pos)
      (scan_double_quoted-advance parent r)
