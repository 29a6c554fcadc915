-- ===== src/Scanner/Quoted/Within.antt =====
-- How far the parts that quoted scalars share move a reader.
use yamlrocks.Common.{
  ℕ, suc, ◌≤◌, ◌<◌, Bool, true, false, Bool-cases, false-ne-true, [], ◌∷◌, Text, length, ◌==◌, ◌≡◌,
  inl, inr, sym, subst, ==_iff, arith,
}
use yamlrocks.Common.Int.{ℤ}
use yamlrocks.Scanner.CharClass.{is_break, is_blank_byte}
use yamlrocks.Scanner.Reader.{
  Span, Reader, past, is_eof, peek, take_run, advance_text, advance_line, line_break,
}
use yamlrocks.Scanner.Outcome.{
  Scan, iterate, ◌>>◌, Within, Within-≤, Lowers, iterate-Within, >>=-Within,
}
use yamlrocks.Scanner.Quoted.{
  skip_while, skip_spaces, skip_blanks, is_blank_line, blank_line_step,
  check_quoted_continuation_indent, fold_quoted_break, at_most,
}

abbrev pub left : Reader → ℕ
left r = length r.rest

pub left-advance_text : (cs : Text) (s : Span) → left (advance_text cs s) ≤ length cs
left-advance_text [] s = omega arith
left-advance_text (c ∷ cs) s = omega arith

pub left-take_run :
    (stop : ℕ → Bool) (rest : Text) (s : Span) → left (take_run stop rest s).1 ≤ length rest
unfolding take_run
left-take_run stop [] s = omega arith
left-take_run stop (c ∷ cs) s =
    let ih = left-take_run stop cs (past c s) in
    elim (Bool-cases (stop c)) [ inl h ↦ rw (h) (omega arith) | inr h ↦ rw (h) (omega arith) ]

pub left-skip_while :
    (p : ℕ → Bool) (rest : Text) (s : Span) → left (skip_while p rest s) ≤ length rest
left-skip_while p [] s = omega arith
left-skip_while p (c ∷ cs) s =
    let ih = left-skip_while p cs (past c s) in
    elim (Bool-cases (p c)) [ inl h ↦ rw (h) (omega arith) | inr h ↦ rw (h) (omega arith) ]

pub left-skip_spaces : (r : Reader) → left (skip_spaces r) ≤ left r
unfolding skip_spaces
left-skip_spaces r = left-skip_while (λ c. c == b' ') r.rest r.pos

pub left-skip_blanks : (r : Reader) → left (skip_blanks r) ≤ left r
unfolding skip_blanks
left-skip_blanks r = left-skip_while is_blank_byte r.rest r.pos

-- In front of a text a line break takes at most two of its characters, and at least one of a break.
left-line_break : (text : Text) → length (line_break text).1 ≤ length text
left-line_break [] = omega arith
left-line_break (c ∷ []) = ground arith
left-line_break (c ∷ c' ∷ cs) = ground arith

line_break-is_break :
    (c : ℕ) (cs : Text) → is_break c ≡ true → length (line_break (c ∷ cs)).1 ≤ length cs
unfolding is_break
line_break-is_break c [] h = ground arith
line_break-is_break c (c' ∷ cs) h = ground arith

pub left-advance_line : (r : Reader) → left (advance_line r) ≤ left r
unfolding advance_line
left-advance_line r = elim (Bool-cases (is_eof r)) [
  | inl h ↦ rw (h) (omega arith)
  | inr h ↦ rw (h) (left-line_break r.rest)
]

pub advance_line-is_break :
    (c : ℕ) (cs : Text) (s : Span)
    → is_break c ≡ true
    → left (advance_line (record { rest = c ∷ cs; pos = s })) ≤ length cs
unfolding advance_line
advance_line-is_break c cs s h = line_break-is_break c cs h

-- A blank line has a character of its own.
tab-lowers :
    (cs : Text) (s : Span)
    → left (advance_line (skip_blanks (record { rest = b'\t' ∷ cs; pos = s }))) ≤ length cs
unfolding skip_blanks advance_line is_blank_byte
tab-lowers cs s =
    let h = left-advance_line (skip_while is_blank_byte cs (past b'\t' s)) in
    let k = left-skip_while is_blank_byte cs (past b'\t' s) in omega arith

break-not-blank : (c : ℕ) → is_break c ≡ true → is_blank_byte c ≡ false
unfolding is_break is_blank_byte
break-not-blank c h = ground arith

break-lowers :
    (c : ℕ) (cs : Text) (s : Span)
    → is_break c ≡ true
    → left (advance_line (skip_blanks (record { rest = c ∷ cs; pos = s }))) ≤ length cs
unfolding skip_blanks
break-lowers c cs s h = rw (break-not-blank c h) (advance_line-is_break c cs s h)

blank_line-lowers :
    (rest : Text) (s : Span)
    → is_blank_line (record { rest = rest; pos = s }) ≡ true
    → left (advance_line (skip_blanks (record { rest = rest; pos = s }))) < length rest
unfolding is_blank_line is_break
blank_line-lowers [] s h = cc
blank_line-lowers (c ∷ cs) s h = elim (Bool-cases (is_break c)) [
  | inl b ↦ let l = break-lowers c cs s b in omega arith
  | inr b ↦ elim (Bool-cases (c == b'\t')) [
    | inl t ↦
        let l = tab-lowers cs s in
        subst
          (λ c.
            left (advance_line (skip_blanks (record { rest = c ∷ cs; pos = s }))) < suc (length cs))
          (sym ((==_iff c b'\t').0 t)) (omega arith)
    | inr t ↦ absurd (false-ne-true (rw (b, t) at h))
  ]
]

blank_line_step-Lowers :
    (n : ℕ) (r : Reader) → Lowers (λ p. left p.1) (left r) (blank_line_step (n, r))
unfolding blank_line_step
blank_line_step-Lowers n r =
    let i = left-skip_spaces r in
    let b = left-skip_blanks (skip_spaces r) in
    elim (Bool-cases (is_eof r)) [
      | inl h ↦ rw (h) (omega arith)
      | inr h ↦ elim (Bool-cases (is_blank_line (skip_spaces r))) [
        | inr n ↦ rw (h, n) i
        | inl n ↦ elim (Bool-cases (is_eof (skip_blanks (skip_spaces r)))) [
          | inl e ↦ rw (h, n, e) (omega arith)
          | inr e ↦
              let l = blank_line-lowers (skip_spaces r).rest (skip_spaces r).pos n in
              rw (h, n, e) (omega arith)
        ]
      ]
    ]

check-Within {ℓ} :
    {A : Type ℓ} (n : ℕ) (r : Reader) (parent : ℤ) (k : Scan (A × Reader))
    → Within n k
    → Within n (check_quoted_continuation_indent r parent >> k)
unfolding check_quoted_continuation_indent
check-Within n r parent k w = elim (Bool-cases (is_eof r)) [
  | inl h ↦ rw (h) w
  | inr h ↦ elim (Bool-cases (is_break (peek r))) [
    | inl b ↦ rw (h, b) w
    | inr b ↦ elim (Bool-cases (at_most r.pos.column parent)) [
      | inl l ↦ rw (h, b, l) tt
      | inr l ↦ rw (h, b, l) w
    ]
  ]
]

-- A fold takes the break that it starts at.
pub fold_quoted_break-Within :
    (c : ℕ) (cs : Text) (s : Span) (value : Text) (parent : ℤ)
    → is_break c ≡ true
    → Within (length cs) (fold_quoted_break (record { rest = c ∷ cs; pos = s }) value parent)
unfolding fold_quoted_break
fold_quoted_break-Within c cs s value parent h =
    let start = advance_line (record { rest = c ∷ cs; pos = s }) in
    Within-≤ (fold_quoted_break (record { rest = c ∷ cs; pos = s }) value parent)
      (advance_line-is_break c cs s h)
      (>>=-Within (left start) (iterate blank_line_step (suc (left start)) (0, start)) _
        (iterate-Within blank_line_step (λ p. left p.1) (λ p. blank_line_step-Lowers p.0 p.1)
          (suc (left start)) (0, start) (omega arith))
        (λ n r l. check-Within (left start) r parent _ (let k = left-skip_blanks r in omega arith)))
