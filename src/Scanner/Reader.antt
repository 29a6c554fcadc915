-- ===== src/Scanner/Reader.antt =====
-- The reader (src/scanner/reader.rs): the characters that are left, and the position before them.
-- A line, a column or an offset does not pass 32 bits on an input of less than 4 GiB, and is a
-- plain number here. The file's number and the mark for a byte order mark never change, and no
-- function below reads them.
use yamlrocks.Common.{
  ℕ, ◌+◌, Bool, ◌&&◌, ◌||◌, Option, none, some, [], ◌∷◌, ◌++◌, Text, starts_with, is_empty, ltb,
  leb, ◌==◌, if◌then◌else◌,
}
use yamlrocks.Common.{◌≡◌, refl}

pub record Span : Type 0 where
  pub line : ℕ
  pub column : ℕ
  pub offset : ℕ

pub record Reader : Type 0 where
  pub rest : Text
  pub pos : Span

-- `char::len_utf8`
unfoldable pub len_utf8 : ℕ → ℕ
len_utf8 c = if ltb c 0x80 then 1 else if ltb c 0x800 then 2 else if ltb c 0x10000 then 3 else 4

-- The position behind one more character.
unfoldable pub past : ℕ → Span → Span
past c s = record s { column = s.column + 1; offset = s.offset + len_utf8 c }

-- The position behind a text without line breaks.
abbrev pub past_text : Text → Span → Span
past_text [] s = s
past_text (c ∷ cs) s = past_text cs (past c s)

pub past_text-append : (a b : Text) (s : Span) → past_text (a ++ b) s ≡ past_text b (past_text a s)
past_text-append [] b s = refl
past_text-append (c ∷ cs) b s = past_text-append cs b (past c s)

abbrev pub is_eof : Reader → Bool
is_eof r = is_empty r.rest

abbrev pub first_char : Text → ℕ
first_char [] = 0
first_char (c ∷ cs) = c

-- `peek`: NUL at the end
abbrev pub peek : Reader → ℕ
peek r = first_char r.rest

abbrev pub advance_text : Text → Span → Reader
advance_text [] s = record { rest = []; pos = s }
advance_text (c ∷ cs) s = record { rest = cs; pos = past c s }

abbrev pub advance : Reader → Reader
advance r = advance_text r.rest r.pos

-- The width of the line break that a text starts with, and what is behind it.
abbrev pub line_break : Text → ℕ × Text
line_break [] = (0, [])
line_break (c ∷ []) = if c == b'\r' || c == b'\n' then (1, []) else (0, c ∷ [])
line_break (c ∷ c' ∷ cs) =
    if c == b'\r' && c' == b'\n'
    then (2, cs)
    else if c == b'\r' || c == b'\n'
    then (1, c' ∷ cs)
    else (0, c ∷ c' ∷ cs)

unfoldable pub advance_line : Reader → Reader
advance_line r =
    if is_eof r
    then r
    else let (width, rest) = line_break r.rest in
      record {
        rest = rest;
        pos = record { line = r.pos.line + 1; column = 0; offset = r.pos.offset + width };
      }

-- A run up to the first character that stops it: the run, and the reader behind it.
unfoldable pub take_run : (ℕ → Bool) → Text → Span → Text × Reader
take_run stop [] s = ([], record { rest = []; pos = s })
take_run stop (c ∷ cs) s =
    let (run, r) = take_run stop cs (past c s) in
    if stop c then ([], record { rest = c ∷ cs; pos = s }) else (c ∷ run, r)

abbrev pub single_quoted_stop : ℕ → Bool
single_quoted_stop c = c == b'\'' || c == b'\n' || c == b'\r'

abbrev pub double_quoted_stop : ℕ → Bool
double_quoted_stop c = c == b'"' || c == b'\\' || c == b'\n' || c == b'\r' || leb 0x80 c

abbrev pub take_single_quoted_run : Reader → Text × Reader
take_single_quoted_run r = take_run single_quoted_stop r.rest r.pos

abbrev pub take_double_quoted_run : Reader → Text × Reader
take_double_quoted_run r = take_run double_quoted_stop r.rest r.pos

abbrev pub after_blanks : Text → Option ℕ
after_blanks [] = none
after_blanks (c ∷ cs) = if c == b' ' || c == b'\t' then after_blanks cs else some c

-- `peek_after_blanks`
abbrev pub peek_after_blanks : Reader → Option ℕ
peek_after_blanks r = after_blanks r.rest

-- `check_ahead`
abbrev pub check_ahead : Reader → Text → Bool
check_ahead r expected = starts_with r.rest expected

-- `peek_at(3)`
abbrev pub fourth : Text → Option ℕ
fourth (_ ∷ _ ∷ _ ∷ c ∷ _) = some c
fourth _ = none
