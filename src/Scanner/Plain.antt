-- ===== src/Scanner/Plain.antt =====
-- Plain scalars (`scan_plain` in src/scanner/scalar.rs). The slice from `start` to the reader is kept
-- as its part in front of `content_end` and the blanks behind.
pub mod Total
use yamlrocks.Common.{
  ℕ, zero, suc, ◌+◌, Bool, true, false, not, ◌&&◌, ◌||◌, Option, none, some, [], ◌∷◌, ◌++◌, Text,
  reverse, length, drop, replicate, is_empty, ltb, ◌==◌, if◌then◌else◌,
}
use yamlrocks.Common.Int.{ℤ}
use yamlrocks.Scanner.CharClass.{is_break, is_blank_byte, is_flow_indicator, is_whitespace_or_break}
use yamlrocks.Scanner.Reader.{Reader, is_eof, first_char, peek, advance, advance_line}
use yamlrocks.Scanner.Runs.{take_plain_run, take_plain_line_run, peek_next}
use yamlrocks.Scanner.Outcome.{Scan, ok, err, stuck, Step, done, more, iterate, ◌>>=◌}
use yamlrocks.Scanner.Quoted.{
  Cow, borrowed, owned, none_or, at_document_marker, skip_blanks, trim_trailing_blanks, at_most,
}

pub record State : Type 0 where
  pub buffer : Option Text
  pub content : Text
  pub gap : Text
  pub content_end : ℕ
  pub prev_was_space : Bool
  pub spaces : Text
  pub reader : Reader

-- The value and its end.
abbrev finished : Option Text → Text → Cow
finished none content = borrowed content
finished (some buf) content = owned buf

unfoldable pub finish : State → Step State ((Cow × ℕ) × Reader)
finish st = done (ok ((finished st.buffer st.content, st.content_end), st.reader))

abbrev has_content : ℕ → State → Bool
has_content start st = content_of st.buffer
  where
    content_of : Option Text → Bool
    content_of none = ltb start st.content_end
    content_of (some buf) = not (is_empty buf)

-- `spaces.ends_with(' ') || spaces.ends_with('\t')`
abbrev ends_blank : Text → Bool
ends_blank spaces = is_blank_byte (first_char (reverse spaces))

abbrev preceded_by_space : State → Bool
preceded_by_space st = preceded st.buffer
  where
    preceded : Option Text → Bool
    preceded none = st.prev_was_space
    preceded (some buf) = ends_blank st.spaces

-- The end conditions in front of the character `ch`.
unfoldable pub ends_plain : ℕ → Bool → ℕ → State → Bool
ends_plain start in_flow ch st =
    if is_eof st.reader
    then true
    else if ch == b':'
        && none_or (λ c. is_whitespace_or_break c || (in_flow && is_flow_indicator c))
            (peek_next st.reader)
    then true
    else if ch == b'#' && (has_content start st && preceded_by_space st)
    then true
    else in_flow && is_flow_indicator ch

-- One turn of the loop over blank lines.
unfoldable pub blank_line_step : ℕ × Reader → Step (ℕ × Reader) (ℕ × Reader)
blank_line_step (blank_lines, r) =
    let behind = skip_blanks r in
    if is_eof behind
    then done (ok (blank_lines, behind))
    else if is_break (peek behind)
    then more (blank_lines + 1, advance_line behind)
    else done (ok (blank_lines, behind))

-- Whether the line that the reader stands on does not continue the scalar.
unfoldable pub ends_at_line : Bool → ℤ → Reader → Bool
ends_at_line in_flow current_indent r =
    let next_ch = peek r in
    if not in_flow && at_most r.pos.column current_indent
    then true
    else if is_eof r
    then true
    else if not in_flow && at_document_marker r
    then true
    else if next_ch == b'#'
    then true
    else if (next_ch == b'?' || next_ch == b':') && none_or is_whitespace_or_break (peek_next r)
    then true
    else in_flow && (next_ch == b'{' || next_ch == b'[')

-- `owned.get_or_insert_with(|| reader.slice(start, content_end).to_owned())`
abbrev materialized : Option Text → Text → Text
materialized none content = content
materialized (some buf) content = buf

abbrev fold_spaces : ℕ → Text
fold_spaces zero = b' ' ∷ []
fold_spaces (suc n) = replicate (suc n) b'\n'

-- Behind a line break and the blank lines that follow.
unfoldable pub after_breaks : Bool → ℤ → State → Scan (ℕ × Reader) → Step State ((Cow × ℕ) × Reader)
after_breaks in_flow current_indent st (ok (blank_lines, r)) =
    if ends_at_line in_flow current_indent r
    then finish (record st { reader = r })
    else more (record st {
      buffer = some (materialized st.buffer st.content);
      spaces = fold_spaces blank_lines;
      reader = r;
    })
after_breaks in_flow current_indent st (err m s) = done (err m s)
after_breaks in_flow current_indent st stuck = done stuck

abbrev pushed_space : Option Text → Text → ℕ → Text
pushed_space none spaces ch = spaces
pushed_space (some buf) spaces ch = spaces ++ ch ∷ []

-- A single content character.
unfoldable pub take_char : ℕ → State → State
take_char ch st = taken st.buffer
  where
    taken : Option Text → State
    taken none = record st {
      content = (st.content ++ st.gap) ++ ch ∷ [];
      gap = [];
      prev_was_space = false;
      content_end = (advance st.reader).pos.offset;
      reader = advance st.reader;
    }
    taken (some buf) = record st {
      buffer = some ((buf ++ st.spaces) ++ ch ∷ []);
      spaces = [];
      prev_was_space = false;
      content_end = (advance st.reader).pos.offset;
      reader = advance st.reader;
    }

-- A run of content, empty where the character is taken singly.
unfoldable pub take_content : Bool → ℕ → State → State
take_content in_flow ch st = taken st.buffer
  where
    taken : Option Text → State
    taken none =
        let ((run, run_content_end), r) = take_plain_line_run in_flow st.reader in
        let head : Text = trim_trailing_blanks run in
        if is_empty run then take_char ch st else record st {
          content = (st.content ++ st.gap) ++ head;
          gap = drop (length head) run;
          content_end = run_content_end;
          prev_was_space = ltb run_content_end r.pos.offset;
          reader = r;
        }
    taken (some buf) =
        let (run, r) = take_plain_run in_flow st.reader in
        if is_empty run then take_char ch st else record st {
          buffer = some ((buf ++ st.spaces) ++ run);
          spaces = [];
          prev_was_space = false;
          content_end = r.pos.offset;
          reader = r;
        }

unfoldable pub step : Bool → ℤ → ℕ → State → Step State ((Cow × ℕ) × Reader)
step in_flow current_indent start st =
    let ch = peek st.reader in
    let behind = advance_line st.reader in
    if ends_plain start in_flow ch st
    then finish st
    else if is_break ch
    then after_breaks in_flow current_indent st
        (iterate blank_line_step (suc (length behind.rest)) (0, behind))
    else if is_blank_byte ch
    then more (record st {
      spaces = pushed_space st.buffer st.spaces ch;
      gap = st.gap ++ ch ∷ [];
      prev_was_space = true;
      reader = advance st.reader;
    })
    else if ch == b':' || ch == b'#'
    then more (take_char ch st)
    else more (take_content in_flow ch st)

abbrev pub start_state : Reader → State
start_state r = record {
  buffer = none;
  content = [];
  gap = [];
  content_end = r.pos.offset;
  prev_was_space = false;
  spaces = [];
  reader = r;
}

unfoldable pub scan_plain : Bool → ℤ → Reader → Scan ((Cow × ℕ) × Reader)
scan_plain in_flow current_indent r =
    iterate (step in_flow current_indent r.pos.offset) (suc (length r.rest)) (start_state r)
