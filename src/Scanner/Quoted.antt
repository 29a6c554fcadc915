-- ===== src/Scanner/Quoted.antt =====
-- What the scanners of quoted scalars share (src/scanner/scalar.rs): document markers, blanks, and
-- the fold of a line break. An indentation is an integer, which no `i32` of the code leaves, and
-- `i32::MIN` is any negative number.
pub mod Single
pub mod Double
pub mod Within
use yamlrocks.Common.{
  ℕ, zero, suc, ◌+◌, Bool, true, false, not, ◌&&◌, ◌||◌, Option, none, some, [], ◌∷◌, ◌++◌, Text,
  reverse, length, replicate, is_empty, leb, ◌==◌, if◌then◌else◌,
}
use yamlrocks.Common.Int.{ℤ, pos, negsuc}
use yamlrocks.Scanner.CharClass.{is_break, is_blank_byte, is_whitespace_or_break}
use yamlrocks.Scanner.Reader.{
  Span, Reader, past, is_eof, first_char, peek, advance_line, peek_after_blanks, check_ahead,
  fourth,
}
use yamlrocks.Scanner.Outcome.{
  continuation_indent, Scan, ok, err, stuck, Step, done, more, iterate, ◌>>=◌, ◌>>◌,
}

-- `Cow<str>`
pub data Cow : Type 0 where
  borrowed : Text → Cow
  owned : Text → Cow

abbrev pub text : Cow → Text
text (borrowed t) = t
text (owned t) = t

-- `owned.get_or_insert_with(String::new)`
abbrev pub buffer_of : Option Text → Text
buffer_of none = []
buffer_of (some buf) = buf

abbrev pub none_or : (ℕ → Bool) → Option ℕ → Bool
none_or p none = true
none_or p (some c) = p c

unfoldable pub at_document_marker : Reader → Bool
at_document_marker r =
    r.pos.column == 0
    && ((check_ahead r (b'-' ∷ b'-' ∷ b'-' ∷ []) || check_ahead r (b'.' ∷ b'.' ∷ b'.' ∷ []))
        && none_or is_whitespace_or_break (fourth r.rest))

-- `while !reader.is_eof() && p(reader.peek()) { reader.advance(); }`
abbrev pub skip_while : (ℕ → Bool) → Text → Span → Reader
skip_while p [] s = record { rest = []; pos = s }
skip_while p (c ∷ cs) s =
    let r = skip_while p cs (past c s) in if p c then r else record { rest = c ∷ cs; pos = s }

unfoldable pub skip_spaces : Reader → Reader
skip_spaces r = skip_while (λ c. c == b' ') r.rest r.pos

unfoldable pub skip_blanks : Reader → Reader
skip_blanks r = skip_while is_blank_byte r.rest r.pos

abbrev drop_while : (ℕ → Bool) → Text → Text
drop_while p [] = []
drop_while p (c ∷ cs) = if p c then drop_while p cs else c ∷ cs

unfoldable pub trim_trailing_blanks : Text → Text
trim_trailing_blanks value = reverse (drop_while is_blank_byte (reverse value))

abbrev pub at_most : ℕ → ℤ → Bool
at_most column (pos n) = leb column n
at_most column (negsuc n) = false

unfoldable pub check_quoted_continuation_indent : Reader → ℤ → Scan (Unit {0})
check_quoted_continuation_indent r parent_indent =
    if is_eof r
    then ok tt
    else if is_break (peek r)
    then ok tt
    else if at_most r.pos.column parent_indent
    then err continuation_indent r.pos
    else ok tt

abbrev break_follows : Option ℕ → Bool
break_follows none = false
break_follows (some c) = c == b'\n' || c == b'\r'

unfoldable pub is_blank_line : Reader → Bool
is_blank_line r =
    if peek r == b'\n' || peek r == b'\r'
    then true
    else if peek r == b'\t'
    then break_follows (peek_after_blanks r)
    else false

-- One turn of the loop in `fold_quoted_break`: the blank lines so far, and the reader.
unfoldable pub blank_line_step : ℕ × Reader → Step (ℕ × Reader) (ℕ × Reader)
blank_line_step (blank_lines, r) =
    let inner = skip_spaces r in
    let behind = skip_blanks inner in
    if is_eof r
    then done (ok (blank_lines, r))
    else if not (is_blank_line inner)
    then done (ok (blank_lines, inner))
    else if is_eof behind
    then done (ok (blank_lines + 1, behind))
    else more (blank_lines + 1, advance_line behind)

abbrev pub fold_text : ℕ → Text
fold_text zero = b' ' ∷ []
fold_text (suc n) = replicate (suc n) b'\n'

-- The fuel exceeds the number of characters left, and every turn that goes on takes one.
unfoldable pub fold_quoted_break : Reader → Text → ℤ → Scan (Text × Reader)
fold_quoted_break r value parent_indent = do
  let start = advance_line r
  (blank_lines, r') ← iterate blank_line_step (suc (length start.rest)) (0, start)
  check_quoted_continuation_indent r' parent_indent
  ok (value ++ fold_text blank_lines, skip_blanks r')

-- The result with the text of its `Cow`
abbrev pub texted : Scan (Cow × Reader) → Scan (Text × Reader)
texted (ok (value, r)) = ok (text value, r)
texted (err m s) = err m s
texted stuck = stuck
