-- ===== src/Scanner/Plain/Total.antt =====
-- The loop of `scan_plain` ends, and takes a character wherever a plain scalar starts.
use yamlrocks.Common.{
  ℕ, suc, ◌<◌, Bool, false, Bool-cases, false-ne-true, sym, none, some, Option-cases, length,
  is_empty, ◌==◌, ◌||◌, ◌≡◌, inl, inr, arith,
}
use yamlrocks.Common.Int.{ℤ}
use yamlrocks.Scanner.CharClass.{is_break, is_blank_byte, plain_stop_table, plain_line_stop_table}
use yamlrocks.Scanner.Reader.{Reader, is_eof, peek, advance_line}
use yamlrocks.Scanner.Runs.{take_plain_run, take_plain_line_run}
use yamlrocks.Scanner.Outcome.{Scan, ok, err, stuck, Within, Lowers, iterate-Within}
use yamlrocks.Scanner.Quoted.{skip_blanks}
use yamlrocks.Scanner.Quoted.Within.{left, left-skip_blanks}
use yamlrocks.Scanner.Plain.{
  State, finish, ends_plain, blank_line_step, ends_at_line, after_breaks, take_char, take_content,
  step, start_state, scan_plain,
}
use yamlrocks.Scanner.Invariant.Reaches.{Reaches, Takes, Takes-Lowers, iterate-Takes}
use yamlrocks.Scanner.Invariant.Sizes.{advance-lowers, advance_line-lowers, is_eof-left, run-lowers}

abbrev size : State → ℕ
size st = left st.reader

blank_line_step-Lowers : (p : ℕ × Reader) → Lowers (λ q. left q.1) (left p.1) (blank_line_step p)
unfolding blank_line_step
blank_line_step-Lowers (n, r) =
    let b = left-skip_blanks r in
    elim (Bool-cases (is_eof (skip_blanks r))) [
      | inl h ↦ rw (h) b
      | inr h ↦ elim (Bool-cases (is_break (peek (skip_blanks r)))) [
        | inl k ↦ let l = advance_line-lowers (skip_blanks r) k in rw (h, k) (omega arith)
        | inr k ↦ rw (h, k) b
      ]
    ]

after_breaks-Takes :
    (in_flow : Bool) (current_indent : ℤ) (st : State) (k n : ℕ) (m : Scan (ℕ × Reader))
    → k < n
    → Within k m
    → Takes size n (after_breaks in_flow current_indent st m)
unfolding after_breaks finish
after_breaks-Takes in_flow current_indent st k n (ok (b, r)) l w =
    elim (Bool-cases (ends_at_line in_flow current_indent r)) [
      | inl h ↦ rw (h) (omega arith)
      | inr h ↦ rw (h) (tt, omega arith)
    ]
after_breaks-Takes in_flow current_indent st k n (err m s) l w = tt
after_breaks-Takes in_flow current_indent st k n stuck l w = w

take_char-lowers : (ch : ℕ) (st : State) → 0 < size st → size (take_char ch st) < size st
unfolding take_char
take_char-lowers ch st h =
    let l = advance-lowers st.reader h in
    elim (Option-cases st.buffer) [ inl b ↦ rw (b) l | inr (t, b) ↦ rw (b) l ]

take_content-lowers :
    (in_flow : Bool) (ch : ℕ) (st : State)
    → 0 < size st
    → size (take_content in_flow ch st) < size st
unfolding take_content take_plain_run take_plain_line_run
take_content-lowers in_flow ch st h = elim (Option-cases st.buffer) [
  | inl b ↦ elim (Bool-cases (is_empty (take_plain_line_run in_flow st.reader).0.0)) [
    | inl e ↦ rw (b, e) (take_char-lowers ch (record st { buffer = none }) h)
    | inr e ↦ rw (b, e) (run-lowers (plain_line_stop_table in_flow) st.reader.rest st.reader.pos e)
  ]
  | inr (t, b) ↦ elim (Bool-cases (is_empty (take_plain_run in_flow st.reader).0)) [
    | inl e ↦ rw (b, e) (take_char-lowers ch (record st { buffer = some t }) h)
    | inr e ↦ rw (b, e) (run-lowers (plain_stop_table in_flow) st.reader.rest st.reader.pos e)
  ]
]

step-Takes :
    (in_flow : Bool) (current_indent : ℤ) (start : ℕ) (st : State)
    → ends_plain start in_flow (peek st.reader) st ≡ false
    → 0 < size st
    → Takes size (size st) (step in_flow current_indent start st)
unfolding step
step-Takes in_flow current_indent start st e z = elim (Bool-cases (is_break (peek st.reader))) [
  | inl b ↦
      let behind = advance_line st.reader in
      rw (e, b)
        (after_breaks-Takes in_flow current_indent st (left behind) (size st) _
          (advance_line-lowers st.reader b)
          (iterate-Within blank_line_step (λ q. left q.1) blank_line_step-Lowers
            (suc (length behind.rest)) (0, behind) (omega arith)))
  | inr b ↦ elim (Bool-cases (is_blank_byte (peek st.reader))) [
    | inl k ↦ rw (e, b, k) (tt, advance-lowers st.reader z)
    | inr k ↦ elim (Bool-cases (peek st.reader == b':' || peek st.reader == b'#')) [
      | inl c ↦ rw (e, b, k, c) (tt, take_char-lowers (peek st.reader) st z)
      | inr c ↦ rw (e, b, k, c) (tt, take_content-lowers in_flow (peek st.reader) st z)
    ]
  ]
]

ends_plain-left :
    (start : ℕ) (in_flow : Bool) (ch : ℕ) (st : State)
    → ends_plain start in_flow ch st ≡ false
    → 0 < size st
unfolding ends_plain
ends_plain-left start in_flow ch st h = elim (Bool-cases (is_eof st.reader)) [
  | inl e ↦ absurd (false-ne-true (sym (rw (e) at h)))
  | inr e ↦ is_eof-left st.reader e
]

step-Lowers :
    (in_flow : Bool) (current_indent : ℤ) (start : ℕ) (st : State)
    → Lowers size (size st) (step in_flow current_indent start st)
unfolding step finish
step-Lowers in_flow current_indent start st =
    elim (Bool-cases (ends_plain start in_flow (peek st.reader) st)) [
      | inl e ↦ rw (e) (omega arith)
      | inr e ↦ Takes-Lowers size (size st) (step in_flow current_indent start st) (
          step-Takes in_flow current_indent start st e
            (ends_plain-left start in_flow (peek st.reader) st e))
    ]

-- Where no end condition holds, `scan_plain` ends, and takes a character or gives an error.
pub scan_plain-lowers :
    (in_flow : Bool) (current_indent : ℤ) (r : Reader)
    → ends_plain r.pos.offset in_flow (peek r) (start_state r) ≡ false
    → Reaches (λ p. left p.1 < left r) (scan_plain in_flow current_indent r)
unfolding scan_plain
scan_plain-lowers in_flow current_indent r e =
    iterate-Takes (step in_flow current_indent r.pos.offset) size (left r)
      (step-Lowers in_flow current_indent r.pos.offset) (length r.rest) (start_state r)
      (step-Takes in_flow current_indent r.pos.offset (start_state r) e
        (ends_plain-left r.pos.offset in_flow (peek r) (start_state r) e))
      (omega arith)

-- On every input `scan_plain` ends, with an error or with a value and a reader that has at most
-- as many characters left as the one it was given.
pub scan_plain-Within :
    (in_flow : Bool) (current_indent : ℤ) (r : Reader)
    → Within (length r.rest) (scan_plain in_flow current_indent r)
unfolding scan_plain
scan_plain-Within in_flow current_indent r =
    iterate-Within (step in_flow current_indent r.pos.offset) size
      (step-Lowers in_flow current_indent r.pos.offset) (suc (length r.rest)) (start_state r)
      (omega arith)
