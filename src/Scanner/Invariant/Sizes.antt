-- ===== src/Scanner/Invariant/Sizes.antt =====
-- How far the steps of the scanner move its reader.
use yamlrocks.Common.{
  ℕ, zero, suc, ◌≤◌, ◌<◌, Bool, true, false, Bool-cases, [], ◌∷◌, Text, length, ◌==◌, ◌≡◌, inl, inr,
  is_empty, arith,
}
use yamlrocks.Scanner.CharClass.{is_break}
use yamlrocks.Scanner.Reader.{
  Span, Reader, peek, is_eof, advance, advance_text, advance_line, take_run, past,
}
use yamlrocks.Scanner.Runs.{skip_space_run, take_until_line_break, advance_n}
use yamlrocks.Scanner.Quoted.{skip_while}
use yamlrocks.Scanner.Quoted.Within.{
  left, left-advance_text, left-take_run, left-skip_while, advance_line-is_break,
}
use yamlrocks.Scanner.Fetch.Entry.{skip_space}

pub left-advance : (r : Reader) → left (advance r) ≤ left r
left-advance r = left-advance_text r.rest r.pos

pub advance-lowers : (r : Reader) → 0 < left r → left (advance r) < left r
advance-lowers r h = lowers r.rest r.pos h
  where
    lowers : (text : Text) (s : Span) → 0 < length text → left (advance_text text s) < length text
    lowers [] s h = absurd (omega arith)
    lowers (c ∷ cs) s h = omega arith

pub left-skip_space : (r : Reader) → left (skip_space r) ≤ left r
left-skip_space r =
    let l = left-advance r in
    elim (Bool-cases (peek r == b' ')) [ inl h ↦ rw (h) l | inr h ↦ rw (h) (omega arith) ]

pub skip_space-advance : (r : Reader) → 0 < left r → left (skip_space (advance r)) < left r
skip_space-advance r h =
    let a = advance-lowers r h in let b = left-skip_space (advance r) in omega arith

pub left-skip_space_run : (r : Reader) → left (skip_space_run r) ≤ left r
unfolding skip_space_run
left-skip_space_run r = left-skip_while (λ c. c == b' ') r.rest r.pos

-- At a character that the loop passes over, one is taken.
pub skip_space_run-lowers :
    (r : Reader) → (peek r == b' ') ≡ true → 0 < left r → left (skip_space_run r) < left r
unfolding skip_space_run
skip_space_run-lowers r p h = lowers r.rest r.pos p h
  where
    lowers :
        (text : Text) (s : Span)
        → (peek (record { rest = text; pos = s }) == b' ') ≡ true
        → 0 < length text
        → left (skip_while (λ c. c == b' ') text s) < length text
    lowers [] s p h = absurd (omega arith)
    lowers (c ∷ cs) s p h =
        let l = left-skip_while (λ c. c == b' ') cs (past c s) in rw (p) (omega arith)

pub advance_line-lowers : (r : Reader) → is_break (peek r) ≡ true → left (advance_line r) < left r
unfolding is_break
advance_line-lowers r h = lowers r.rest r.pos h
  where
    lowers :
        (text : Text) (s : Span)
        → is_break (peek (record { rest = text; pos = s })) ≡ true
        → left (advance_line (record { rest = text; pos = s })) < length text
    lowers [] s h = cc
    lowers (c ∷ cs) s h = let l = advance_line-is_break c cs s h in omega arith

pub left-advance_n : (n : ℕ) (r : Reader) → left (advance_n n r) ≤ left r
unfolding advance_n
left-advance_n zero r = omega arith
left-advance_n (suc n) r =
    let a = left-advance r in let b = left-advance_n n (advance r) in omega arith

pub advance_n-lowers : (n : ℕ) (r : Reader) → 0 < left r → left (advance_n (suc n) r) < left r
unfolding advance_n
advance_n-lowers n r h =
    let a = advance-lowers r h in let b = left-advance_n n (advance r) in omega arith

pub left-until_line_break : (r : Reader) → left (take_until_line_break r).1 ≤ left r
unfolding take_until_line_break
left-until_line_break r = left-take_run is_break r.rest r.pos

-- A character stands where `peek` is not NUL, and where the reader is not at the end.
pub peek-left : (r : Reader) (c : ℕ) → 0 < c → (peek r == c) ≡ true → 0 < left r
peek-left r c z h = some_left r.rest h
  where
    some_left :
        (text : Text) → (peek (record { rest = text; pos = r.pos }) == c) ≡ true → 0 < length text
    some_left [] h = absurd (ground arith)
    some_left (d ∷ ds) h = omega arith

pub is_eof-left : (r : Reader) → is_eof r ≡ false → 0 < left r
is_eof-left r h = some_left r.rest h
  where
    some_left : (text : Text) → is_empty text ≡ false → 0 < length text
    some_left [] h = cc
    some_left (c ∷ cs) h = omega arith

-- A run that is not empty takes a character.
pub run-lowers :
    (stop : ℕ → Bool) (text : Text) (s : Span)
    → is_empty (take_run stop text s).0 ≡ false
    → left (take_run stop text s).1 < length text
unfolding take_run
run-lowers stop [] s h = cc
run-lowers stop (c ∷ cs) s h =
    let l = left-take_run stop cs (past c s) in
    elim (Bool-cases (stop c)) [
      | inl b ↦ absurd (true-empty (rw (b) at h))
      | inr b ↦ rw (b) (omega arith)
    ]
  where
    true-empty : true ≡ false → ⊥
    true-empty h = cc
