-- ===== src/Scanner/Block/Lines.antt =====
-- The loops over the lines of a block scalar end.
use yamlrocks.Common.{
  ℕ, suc, ◌≤◌, ◌<◌, Bool, true, false, Bool-cases, [], ◌∷◌, Text, length, is_empty, not, ◌&&◌, ◌==◌,
  ltb, ◌≡◌, if◌then◌else◌, inl, inr, arith, and_parts, not-true, not-false,
}
use yamlrocks.Scanner.CharClass.{is_break}
use yamlrocks.Scanner.Reader.{
  Span, Reader, past, is_eof, first_char, peek, advance_line, take_run, peek_after_blanks,
  after_blanks,
}
use yamlrocks.Scanner.Runs.{take_until_line_break, Stopped, take_run-append}
use yamlrocks.Scanner.Outcome.{
  Scan, ok, err, stuck, iterate, Within, Within-≤, Lowers, iterate-Within, >>=-Within,
}
use yamlrocks.Scanner.Quoted.{none_or, skip_spaces, skip_while}
use yamlrocks.Scanner.Quoted.Within.{left, left-skip_spaces, left-skip_while, left-take_run}
use yamlrocks.Scanner.Block.{
  Chomping, skip_below, breaks_step, scan_block_breaks, empty_line_step, scan_empty_block, Content,
  in_block, after_line, content_step, scan_content,
}
use yamlrocks.Scanner.Invariant.Sizes.{advance_line-lowers, is_eof-left}
use yamlrocks.Scanner.Block.Opening.{at_end}

left-skip_below :
    (indent : ℕ) (text : Text) (s : Span) → left (skip_below indent text s) ≤ length text
left-skip_below indent [] s = omega arith
left-skip_below indent (c ∷ cs) s =
    let l = left-skip_below indent cs (past c s) in
    elim (Bool-cases (ltb s.column indent && c == b' ')) [
      | inl h ↦ rw (h) (omega arith)
      | inr h ↦ rw (h) (omega arith)
    ]

breaks_step-Lowers :
    (indent : ℕ) (p : ℕ × Reader) → Lowers (λ p. left p.1) (left p.1) (breaks_step indent p)
unfolding breaks_step
breaks_step-Lowers indent (breaks, r) = elim (Bool-cases (is_eof r)) [
  | inl e ↦ rw (e) (omega arith)
  | inr e ↦ elim (Bool-cases (is_break (peek r))) [
    | inl b ↦
        let a = advance_line-lowers r b in
        let l = left-skip_below indent (advance_line r).rest (advance_line r).pos in
        rw (e, b) (omega arith)
    | inr b ↦ rw (e, b) (omega arith)
  ]
]

scan_block_breaks-Within : (r : Reader) (indent : ℕ) → Within (left r) (scan_block_breaks r indent)
unfolding scan_block_breaks
scan_block_breaks-Within r indent =
    let l = left-skip_below indent r.rest r.pos in
    Within-≤ (scan_block_breaks r indent) l (
      iterate-Within (breaks_step indent) (λ p. left p.1) (breaks_step-Lowers indent)
        (suc (length r.rest)) (0, skip_below indent r.rest r.pos) (omega arith))

-- Behind the spaces of a blank line that holds no tab stands its break.
blank-is_break :
    (text : Text) (s : Span)
    → none_or is_break (after_blanks text) ≡ true
    → is_eof (skip_while (λ c. c == b' ') text s) ≡ false
    → (peek (skip_while (λ c. c == b' ') text s) == b'\t') ≡ false
    → is_break (peek (skip_while (λ c. c == b' ') text s)) ≡ true
blank-is_break [] s h e t = cc
blank-is_break (c ∷ cs) s h e t =
    let ih = blank-is_break cs (past c s) in
    elim (Bool-cases (c == b' ')) [
      | inl b ↦ rw (b) (ih (rw (b) at h) (rw (b) at e) (rw (b) at t))
      | inr b ↦ rw (b) (rw (b, rw (b) at t) at h)
    ]

advance_line-blank :
    (r : Reader)
    → not (none_or is_break (peek_after_blanks r)) ≡ false
    → (peek (skip_spaces r) == b'\t') ≡ false
    → is_eof (skip_spaces r) ≡ false
    → left (advance_line (skip_spaces r)) < left r
unfolding skip_spaces
advance_line-blank r c d f =
    let b = left-skip_while (λ c. c == b' ') r.rest r.pos in
    let a =
      advance_line-lowers (skip_spaces r)
        (blank-is_break r.rest r.pos (not-false (none_or is_break (peek_after_blanks r)) c) f d) in
    omega arith

empty_line_step-Lowers : (p : ℕ × Reader) → Lowers (λ p. left p.1) (left p.1) (empty_line_step p)
unfolding empty_line_step
empty_line_step-Lowers (feeds, r) =
    let b = left-skip_spaces r in
    elim (Bool-cases (is_eof r)) [
      | inl e ↦ rw (e) (omega arith)
      | inr e ↦ elim (Bool-cases (not (none_or is_break (peek_after_blanks r)))) [
        | inl c ↦ rw (e, c) (omega arith)
        | inr c ↦ elim (Bool-cases (peek (skip_spaces r) == b'\t')) [
          | inl d ↦ rw (e, c, d) tt
          | inr d ↦ elim (Bool-cases (is_eof (skip_spaces r))) [
            | inl f ↦ rw (e, c, d, f) b
            | inr f ↦ rw (e, c, d, f) (advance_line-blank r c d f)
          ]
        ]
      ]
    ]

pub scan_empty_block-Within :
    (r : Reader) (chomping : Chomping) → Within (left r) (scan_empty_block r chomping)
unfolding scan_empty_block
scan_empty_block-Within r chomping =
    >>=-Within (left r) (iterate empty_line_step (suc (length r.rest)) (0, r)) _
      (iterate-Within empty_line_step (λ p. left p.1) empty_line_step-Lowers (suc (length r.rest))
        (0, r) (omega arith))
      (λ feeds r' l. l)

after_line-Lowers :
    (literal : Bool) (indent : ℕ) (had_break leading : Bool) (value : Text) (trailing k n : ℕ)
    (m : Scan (ℕ × Reader))
    → k < n
    → Within k m
    → Lowers (λ st. left st.reader) n (after_line literal indent had_break leading value trailing m)
unfolding after_line
after_line-Lowers literal indent had_break leading value trailing k n (ok (breaks, r)) l w =
    elim (Bool-cases (in_block indent r)) [
      | inl h ↦ rw (h) (omega arith)
      | inr h ↦ rw (h) (omega arith)
    ]
after_line-Lowers literal indent had_break leading value trailing k n (err m s) l w = tt
after_line-Lowers literal indent had_break leading value trailing k n stuck l w = w

-- A content line takes a character: its own, or its break.
line-lowers :
    (r : Reader)
    → is_eof r ≡ false
    → left (
        let behind = (take_until_line_break r).1 in
        if not (is_eof behind) then advance_line behind else behind)
      < left r
unfolding take_until_line_break
line-lowers r e =
    let l = left-take_run is_break r.rest r.pos in
    let behind = (take_run is_break r.rest r.pos).1 in
    elim (Bool-cases (is_eof behind)) [
      | inl b ↦ rw (b) (at_end behind r b (is_eof-left r e))
      | inr b ↦
          let a =
            advance_line-lowers behind
              (stops behind.rest b (take_run-append is_break r.rest r.pos).2) in
          rw (b) (omega arith)
    ]
  where
    stops :
        (text : Text)
        → is_empty text ≡ false
        → Stopped is_break text
        → is_break (first_char text) ≡ true
    stops [] e s = cc
    stops (c ∷ cs) e s = s

in_block-eof : (indent : ℕ) (r : Reader) → in_block indent r ≡ true → is_eof r ≡ false
unfolding in_block
in_block-eof indent r h =
    not-true (is_eof r) (and_parts _ _ (and_parts (r.pos.column == indent) _ h).1).0

content_step-Lowers :
    (literal : Bool) (indent : ℕ) (st : Content)
    → Lowers (λ st. left st.reader) (left st.reader) (content_step literal indent st)
unfolding content_step
content_step-Lowers literal indent st = elim (Bool-cases (in_block indent st.reader)) [
  | inl h ↦
      let r = (take_until_line_break st.reader).1 in
      let behind : Reader = if not (is_eof r) then advance_line r else r in
      rw (h) (
        after_line-Lowers literal indent _ _ _ st.trailing (left behind) (left st.reader) _
          (line-lowers st.reader (in_block-eof indent st.reader h))
          (scan_block_breaks-Within behind indent))
  | inr h ↦ rw (h) (omega arith)
]

pub scan_content-Within :
    (literal : Bool) (chomping : Chomping) (indent : ℕ) (r : Reader)
    → Within (left r) (scan_content literal chomping indent r)
unfolding scan_content
scan_content-Within literal chomping indent r =
    >>=-Within (left r) (scan_block_breaks r indent) _ (scan_block_breaks-Within r indent)
      (λ breaks r1 l.
        >>=-Within (left r) _ _
          (Within-≤ _ l (
            iterate-Within (content_step literal indent) (λ st. left st.reader)
              (content_step-Lowers literal indent) (suc (length r1.rest))
              (record { value = []; breaks = breaks; trailing = breaks; reader = r1 })
              (omega arith)))
          (λ v r2 k. k))
