-- ===== src/Scanner/Quoted/Double.antt =====
-- `scan_double_quoted` (src/scanner/scalar.rs).
pub mod Escapes
pub mod RoundTrip
pub mod Total
use yamlrocks.Common.{
  ℕ, zero, suc, ◌+◌, ◌-◌, ◌*◌, Bool, true, false, ◌||◌, Option, none, some, [], ◌∷◌, ◌++◌, Text,
  length, take, ltb, between, ◌==◌, if◌then◌else◌,
}
use yamlrocks.Common.Int.{ℤ}
use yamlrocks.Scanner.CharClass.{is_break, is_blank_byte}
use yamlrocks.Scanner.Reader.{
  Span, Reader, past, peek, is_eof, advance, advance_line, take_double_quoted_run,
}
use yamlrocks.Scanner.Outcome.{
  unterminated_double, unterminated_escape, unknown_escape, incomplete_unicode, invalid_hex_digit,
  invalid_code_point, document_marker, Scan, ok, err, stuck, Step, done, more, iterate, ◌>>=◌,
}
use yamlrocks.Scanner.Quoted.{
  Cow, borrowed, owned, buffer_of, at_document_marker, skip_spaces, fold_quoted_break,
}

-- The variables of the loop: `owned` with `nonblank_len`, the slice from `run_start` to the reader, and
-- the reader. Lengths count characters: the code's `nonblank_len` is always the end of one.
pub record State : Type 0 where
  pub buffer : Option Text
  pub nonblank_len : ℕ
  pub run : Text
  pub reader : Reader

-- `run.rfind(|c| c != ' ' && c != '\t')`, as the length up to and with the character found
abbrev content_length : Text → Option ℕ
content_length [] = none
content_length (c ∷ cs) = deeper (content_length cs) (is_blank_byte c)
  where
    deeper : Option ℕ → Bool → Option ℕ
    deeper (some n) blank = some (suc n)
    deeper none true = none
    deeper none false = some 1

abbrev or_end : ℕ → ℕ → Option ℕ → ℕ
or_end base nonblank_len none = nonblank_len
or_end base nonblank_len (some n) = base + n

unfoldable pub push_dquoted_run : Text → ℕ → Text → Text × ℕ
unfolding is_blank_byte
push_dquoted_run buf nonblank_len run =
    (buf ++ run, or_end (length buf) nonblank_len (content_length run))

abbrev pub hex_value : ℕ → Option ℕ
hex_value c =
    if between b'0' b'9' c
    then some (c - b'0')
    else if between b'a' b'f' c
    then some (c - b'a' + 10)
    else if between b'A' b'F' c
    then some (c - b'A' + 10)
    else none

-- `char::from_u32`
abbrev pub from_u32 : ℕ → Option ℕ
from_u32 code = if ltb code 0xd800 || between 0xe000 0x10ffff code then some code else none

abbrev pub code_point : ℕ → Span → Reader → Option ℕ → Scan (ℕ × Reader)
code_point code start r none = err (invalid_code_point code) start
code_point code start r (some c) = ok (c, r)

abbrev pub hex_step : Option ℕ → ℕ → ℕ → Text → Span → (ℕ → Scan (ℕ × Reader)) → Scan (ℕ × Reader)
hex_step none c code cs s k = err (invalid_hex_digit c) s
hex_step (some d) c code cs s k = k (code * 16 + d)

-- Eight digits at most, so that `code * 16 + digit` stays below 2 ^ 32.
abbrev pub unicode_digits : ℕ → Span → ℕ → Text → Span → Scan (ℕ × Reader)
unicode_digits zero start code rest s =
    code_point code start (record { rest = rest; pos = s }) (from_u32 code)
unicode_digits (suc n) start code [] s = err incomplete_unicode start
unicode_digits (suc n) start code (c ∷ cs) s =
    hex_step (hex_value c) c code cs s (λ code'. unicode_digits n start code' cs (past c s))

unfoldable pub scan_unicode_escape : Reader → ℕ → Span → Scan (ℕ × Reader)
unfolding past
scan_unicode_escape r n start = unicode_digits n start 0 r.rest r.pos

-- The escapes of one letter
abbrev pub letter_escape : ℕ → Option ℕ
letter_escape c =
    if c == b'0'
    then some 0
    else if c == b'a'
    then some 0x07
    else if c == b'b'
    then some 0x08
    else if c == b't' || c == b'\t'
    then some 0x09
    else if c == b'n'
    then some 0x0a
    else if c == b'v'
    then some 0x0b
    else if c == b'f'
    then some 0x0c
    else if c == b'r'
    then some 0x0d
    else if c == b'e'
    then some 0x1b
    else if c == b' '
    then some b' '
    else if c == b'"'
    then some b'"'
    else if c == b'/'
    then some b'/'
    else if c == b'\\'
    then some b'\\'
    else if c == b'N'
    then some 0x85
    else if c == b'_'
    then some 0xa0
    else if c == b'L'
    then some 0x2028
    else if c == b'P'
    then some 0x2029
    else none

-- The digits of `\x`, `\u` and `\U`
abbrev pub digits_of : ℕ → Option ℕ
digits_of c =
    if c == b'x' then some 2 else if c == b'u' then some 4 else if c == b'U' then some 8 else none

-- The blank lines behind a line continuation
abbrev pub continuation_step : Text × Reader → Step (Text × Reader) (Text × Reader)
continuation_step (buf, r) =
    if is_eof r
    then done (ok (buf, r))
    else if is_break (peek r)
    then more (buf ++ b'\n' ∷ [], skip_spaces (advance_line r))
    else done (ok (buf, r))

abbrev pub unmarked : Span → Text × Reader → Scan (Text × Reader)
unmarked start (buf, r) = if at_document_marker r then err document_marker start else ok (buf, r)

unfoldable pub line_continuation : Span → Text → Reader → Scan (Text × Reader)
line_continuation start buf r =
    let first = skip_spaces (advance_line r) in
    iterate continuation_step (suc (length first.rest)) (buf, first) >>= unmarked start

abbrev pub pushed : Text → ℕ × Reader → Scan (Text × Reader)
pushed buf (c, r) = ok (buf ++ c ∷ [], r)

-- The arms of the `match` behind a backslash, for the character `c` at `s`
abbrev pub numeric_escape : Span → Text → ℕ → Text → Span → Option ℕ → Scan (Text × Reader)
numeric_escape start buf c cs s (some n) =
    scan_unicode_escape (record { rest = cs; pos = past c s }) n start >>= pushed buf
numeric_escape start buf c cs s none =
    if is_break c
    then line_continuation start buf (record { rest = c ∷ cs; pos = s })
    else err (unknown_escape c) s

abbrev pub lettered : Span → Text → ℕ → Text → Span → Option ℕ → Scan (Text × Reader)
lettered start buf c cs s (some e) = ok (buf ++ e ∷ [], record { rest = cs; pos = past c s })
lettered start buf c cs s none = numeric_escape start buf c cs s (digits_of c)

unfoldable pub scan_escape : Span → Text → Text → Span → Scan (Text × Reader)
scan_escape start buf [] s = err unterminated_escape start
scan_escape start buf (c ∷ cs) s = lettered start buf c cs s (letter_escape c)

abbrev pub after_escape : Scan (Text × Reader) → Step State (Cow × Reader)
after_escape (ok (buf, r)) =
    more (record { buffer = some buf; nonblank_len = length buf; run = []; reader = r })
after_escape (err m s) = done (err m s)
after_escape stuck = done stuck

-- The boundary stays where the fold's truncation left it.
abbrev pub after_fold : Span → ℕ → Scan (Text × Reader) → Step State (Cow × Reader)
after_fold start nonblank_len (ok (buf, r)) =
    if at_document_marker r
    then done (err document_marker start)
    else more (record { buffer = some buf; nonblank_len = nonblank_len; run = []; reader = r })
after_fold start nonblank_len (err m s) = done (err m s)
after_fold start nonblank_len stuck = done stuck

abbrev pub finished : Option Text → ℕ → Text → Cow
finished none nonblank_len run = borrowed run
finished (some buf) nonblank_len run = owned (push_dquoted_run buf nonblank_len run).0

-- The `match` on the character that stopped the run.
abbrev pub stopped : ℤ → Span → Option Text → ℕ → Text → Text → Span → Step State (Cow × Reader)
stopped parent start buffer nonblank_len run [] s = done (err unterminated_double start)
stopped parent start buffer nonblank_len run (c ∷ cs) s =
    let behind = past c s in
    let (buf, boundary) = push_dquoted_run (buffer_of buffer) nonblank_len run in
    if c == b'"'
    then done (ok (finished buffer nonblank_len run, record { rest = cs; pos = behind }))
    else if c == b'\\'
    then after_escape (scan_escape start buf cs behind)
    else if is_break c
    then after_fold start boundary
        (fold_quoted_break (record { rest = c ∷ cs; pos = s }) (take boundary buf) parent)
    else more (record {
      buffer = buffer;
      nonblank_len = nonblank_len;
      run = run ++ c ∷ [];
      reader = record { rest = cs; pos = behind };
    })

unfoldable pub step : ℤ → Span → State → Step State (Cow × Reader)
step parent start st =
    let (run, r) = take_double_quoted_run st.reader in
    stopped parent start st.buffer st.nonblank_len (st.run ++ run) r.rest r.pos

unfoldable pub scan_double_quoted : ℤ → Reader → Scan (Cow × Reader)
unfolding step
scan_double_quoted parent r =
    iterate (step parent r.pos) (suc (length r.rest))
      (record { buffer = none; nonblank_len = 0; run = []; reader = advance r })
