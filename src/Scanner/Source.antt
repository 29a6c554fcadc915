-- ===== src/Scanner/Source.antt =====
-- What of the reader never changes (src/scanner/reader.rs): the input, and whether it starts with a
-- byte order mark. A reader looks back at the input to tell a comment.
use yamlrocks.Common.{ℕ, zero, suc, ◌-◌, Bool, true, ◌&&◌, ◌||◌, [], ◌∷◌, Text, ◌==◌, if◌then◌else◌}
use yamlrocks.Scanner.CharClass.{is_whitespace_or_break}
use yamlrocks.Scanner.Reader.{Span, Reader, len_utf8, first_char}

pub record Source : Type 0 where
  pub input : Text
  pub had_bom : Bool

-- `BOM_LEN`
abbrev pub bom_len : ℕ
bom_len = 3

abbrev start_span : ℕ → Span
start_span offset = record { line = 0; column = 0; offset = offset }

-- `Reader::new`
abbrev pub new_source : Text → Source
new_source input = record { input = input; had_bom = first_char input == 0xfeff }

unfoldable pub new_reader : Text → Reader
new_reader [] = record { rest = []; pos = start_span 0 }
new_reader (c ∷ cs) =
    if c == 0xfeff
    then record { rest = cs; pos = start_span bom_len }
    else record { rest = c ∷ cs; pos = start_span 0 }

-- The last character of a text in front of an offset, `last` where there is none.
unfoldable pub before : ℕ → ℕ → Text → ℕ
unfolding len_utf8
before last offset [] = last
before last zero (c ∷ cs) = last
before last (suc n) (c ∷ cs) = before c (suc n - len_utf8 c) cs

unfoldable pub prev_is_whitespace_or_start : Source → Reader → Bool
prev_is_whitespace_or_start src r =
    if r.pos.offset == 0 || (src.had_bom && r.pos.offset == bom_len)
    then true
    else is_whitespace_or_break (before 0 r.pos.offset src.input)
