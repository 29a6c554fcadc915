-- ===== src/Emit/Scalar.antt =====
-- The bodies of quoted and block scalars (src/emit_util.rs). A function that appends to a buffer
-- returns the longer buffer. A buffer is a list of code points here, but for `push_folded`, which
-- works on the bytes of an escaped body.
use yamlrocks.Common.{
  ℕ, zero, suc, ◌+◌, ◌-◌, ◌/◌, ◌%◌, Bool, true, false, not, ◌&&◌, ◌||◌, Option, none, some, List,
  [], ◌∷◌, ◌++◌, reverse, Text, contains, any, is_empty, replicate, split, ltb, leb, ◌==◌,
  if◌then◌else◌, between,
}

-- `'` doubled
unfoldable pub single_quoted_body : Text → Text
single_quoted_body [] = []
single_quoted_body (c ∷ cs) =
    if c == b'\'' then b'\'' ∷ b'\'' ∷ single_quoted_body cs else c ∷ single_quoted_body cs

unfoldable pub is_non_printable : ℕ → Bool
is_non_printable c =
    if c == 0x09 || c == 0x0a || c == 0x0d
    then false
    else if leb c 0x1f || c == 0x7f
    then true
    else if c == 0x85
    then false
    else if between 0x80 0x9f c
    then true
    else c == 0xfffe || c == 0xffff

-- A byte below 0x20 or equal to 0x7f is a character of its own.
unfoldable pub single_capable : Text → Bool
unfolding is_non_printable
single_capable value =
    not (contains value b'\n')
    && (not (contains value b'\r')
        && (not (any (λ b. ltb b 0x20 || b == 0x7f) value) && not (any is_non_printable value)))

unfoldable pub single_quotable : Text → Bool → Bool
unfolding single_capable
single_quotable value double_quotes =
    not double_quotes && (not (contains value b'\'') && single_capable value)

-- `value.split('\n').find(|line| !line.is_empty())`
abbrev pub first_content : List Text → Option Text
first_content [] = none
first_content ([] ∷ lines) = first_content lines
first_content ((c ∷ cs) ∷ lines) = some (c ∷ cs)

abbrev pub starts_blank : Option Text → Bool
starts_blank none = false
starts_blank (some []) = false
starts_blank (some (c ∷ cs)) = c == b' ' || c == b'\t'

unfoldable pub use_literal_block : Text → Bool
unfolding is_non_printable split
use_literal_block value =
    if not (contains value b'\n')
    then false
    else if any (λ c. c == b'\r' || is_non_printable c) value
    then false
    else not (starts_blank (first_content (split b'\n' value)))

-- A digit of `{:x}`
abbrev pub hex_digit : ℕ → ℕ
hex_digit d = if ltb d 10 then b'0' + d else b'a' + (d - 10)

-- `{n:02x}` for a byte, and `{n:04x}` for two
abbrev pub hex_2 : ℕ → Text
hex_2 n = hex_digit (n / 16) ∷ hex_digit (n % 16) ∷ []

abbrev pub hex_4 : ℕ → Text
hex_4 n =
    hex_digit (n / 4096)
    ∷ hex_digit (n / 256 % 16)
    ∷ hex_digit (n / 16 % 16)
    ∷ hex_digit (n % 16)
    ∷ []

abbrev pub escaped : ℕ → Text
escaped letter = b'\\' ∷ letter ∷ []

-- What `double_quoted_body` writes for one character.
unfoldable pub escape : ℕ → Text
escape c =
    if c == b'"'
    then escaped b'"'
    else if c == b'\\'
    then escaped b'\\'
    else if c == b'\n'
    then escaped b'n'
    else if c == b'\r'
    then escaped b'r'
    else if c == b'\t'
    then escaped b't'
    else if c == 0
    then escaped b'0'
    else if is_non_printable c
    then (if leb c 0xff then b'\\' ∷ b'x' ∷ hex_2 c else b'\\' ∷ b'u' ∷ hex_4 c)
    else c ∷ []

unfoldable pub double_quoted_body : Text → Text
unfolding escape
double_quoted_body [] = []
double_quoted_body (c ∷ cs) = escape c ++ double_quoted_body cs

unfoldable pub push_single_quoted : Text → Text → Text
unfolding single_quoted_body
push_single_quoted buf value = buf ++ (b'\'' ∷ (single_quoted_body value ++ b'\'' ∷ []))

unfoldable pub push_double_quoted : Text → Text → Text
unfolding double_quoted_body
push_double_quoted buf value = buf ++ (b'"' ∷ (double_quoted_body value ++ b'"' ∷ []))

-- `bytes().rev().take_while(|&b| b == b'\n').count()` on the reversed text
abbrev pub leading_breaks : Text → ℕ
leading_breaks [] = 0
leading_breaks (c ∷ cs) = if c == b'\n' then suc (leading_breaks cs) else 0

abbrev pub skip_breaks : Text → Text
skip_breaks [] = []
skip_breaks (c ∷ cs) = if c == b'\n' then skip_breaks cs else c ∷ cs

unfoldable pub trailing_breaks : Text → ℕ
trailing_breaks value = leading_breaks (reverse value)

-- `value.trim_end_matches('\n')`
unfoldable pub trim_end_breaks : Text → Text
trim_end_breaks value = reverse (skip_breaks (reverse value))

-- the chomping indicator for a number of trailing breaks; the flag is `body.is_empty()`
abbrev pub chomping_indicator : ℕ → Bool → Text
chomping_indicator zero empty = b'-' ∷ []
chomping_indicator (suc zero) true = b'+' ∷ []
chomping_indicator (suc zero) false = []
chomping_indicator (suc (suc n)) empty = b'+' ∷ []

unfoldable pub push_block_scalar_header : Text → Text → ℕ → Text
unfolding trailing_breaks trim_end_breaks
push_block_scalar_header buf value marker =
    buf ++ (marker ∷ chomping_indicator (trailing_breaks value) (is_empty (trim_end_breaks value)))

abbrev pub body_line : ℕ → Text → Text
body_line indent [] = b'\n' ∷ []
body_line indent (c ∷ cs) = replicate indent b' ' ++ ((c ∷ cs) ++ b'\n' ∷ [])

abbrev pub body_lines : ℕ → List Text → Text
body_lines indent [] = []
body_lines indent (l ∷ ls) = body_line indent l ++ body_lines indent ls

unfoldable pub push_block_scalar_body : Text → Text → ℕ → Text
unfolding trailing_breaks trim_end_breaks split
push_block_scalar_body buf value body_indent =
    buf
    ++ (b'\n'
        ∷ (body_lines body_indent (split b'\n' (trim_end_breaks value))
            ++ replicate (trailing_breaks value - 1) b'\n'))

unfoldable pub push_block_scalar : Text → Text → ℕ → ℕ → Text
unfolding push_block_scalar_header push_block_scalar_body
push_block_scalar buf value marker body_indent =
    push_block_scalar_body (push_block_scalar_header buf value marker) value body_indent
