-- ===== src/Scanner/Quoted/Single/Total.antt =====
-- The loop of `scan_single_quoted` ends.
use yamlrocks.Common.{
  ℕ, suc, Bool-cases, Option, none, [], ◌∷◌, ◌++◌, Text, length, ◌==◌, inl, inr, arith,
}
use yamlrocks.Common.Int.{ℤ}
use yamlrocks.Scanner.CharClass.{is_break}
use yamlrocks.Scanner.Reader.{Span, Reader, past, first_char, advance, single_quoted_stop, take_run}
use yamlrocks.Scanner.Outcome.{
  Scan, ok, err, stuck, Within, Within-≤, Lowers, Lowers-≤, iterate-Within,
}
use yamlrocks.Scanner.Quoted.{at_document_marker, trim_trailing_blanks, buffer_of}
use yamlrocks.Scanner.Quoted.Within.{
  left, left-take_run, left-advance_text, fold_quoted_break-Within,
}
use yamlrocks.Scanner.Quoted.Single.{State, after_fold, stopped, step, scan_single_quoted}

abbrev size : State → ℕ
size st = left st.reader

after_fold-Lowers :
    (start : Span) (n : ℕ) (m : Scan (Text × Reader))
    → Within n m
    → Lowers size (suc n) (after_fold start m)
after_fold-Lowers start n (ok (buf, r)) w = elim (Bool-cases (at_document_marker r)) [
  | inl h ↦ rw (h) tt
  | inr h ↦ rw (h) (omega arith)
]
after_fold-Lowers start n (err m s) w = tt
after_fold-Lowers start n stuck w = w

stopped-Lowers :
    (parent : ℤ) (start : Span) (buffer : Option Text) (run rest : Text) (s : Span)
    → Lowers size (length rest) (stopped parent start buffer run rest s)
stopped-Lowers parent start buffer run [] s = tt
stopped-Lowers parent start buffer run (c ∷ cs) s = elim (Bool-cases (c == b'\'')) [
  | inl q ↦ elim (Bool-cases (first_char cs == b'\'')) [
    | inl d ↦ let l = left-advance_text cs (past c s) in rw (q, d) (omega arith)
    | inr d ↦ rw (q, d) (omega arith)
  ]
  | inr q ↦ elim (Bool-cases (is_break c)) [
    | inl b ↦
        rw (q, b)
          (after_fold-Lowers start (length cs) _ (
            fold_quoted_break-Within c cs s (trim_trailing_blanks (buffer_of buffer ++ run)) parent
              b))
    | inr b ↦ rw (q, b) (omega arith)
  ]
]

step-Lowers :
    (parent : ℤ) (start : Span) (st : State) → Lowers size (size st) (step parent start st)
unfolding step
step-Lowers parent start st =
    let run = take_run single_quoted_stop st.reader.rest st.reader.pos in
    Lowers-≤ size (stopped parent start st.buffer (st.run ++ run.0) run.1.rest run.1.pos)
      (left-take_run single_quoted_stop st.reader.rest st.reader.pos)
      (stopped-Lowers parent start st.buffer (st.run ++ run.0) run.1.rest run.1.pos)

-- The opening quote is taken.
pub scan_single_quoted-advance :
    (parent : ℤ) (r : Reader) → Within (left (advance r)) (scan_single_quoted parent r)
unfolding scan_single_quoted
scan_single_quoted-advance parent r =
    let l = left-advance_text r.rest r.pos in
    iterate-Within (step parent r.pos) size (step-Lowers parent r.pos) (suc (length r.rest))
      (record { buffer = none; run = []; reader = advance r }) (omega arith)

-- On every input `scan_single_quoted` ends, with an error or with a value and a reader that has at
-- most as many characters left as the one it was given.
pub scan_single_quoted-Within :
    (parent : ℤ) (r : Reader) → Within (length r.rest) (scan_single_quoted parent r)
scan_single_quoted-Within parent r =
    Within-≤ (scan_single_quoted parent r) (left-advance_text r.rest r.pos)
      (scan_single_quoted-advance parent r)
