-- ===== src/Scanner/Fetch/Trivia.antt =====
-- White space and comments between tokens (`scan_to_next_token`, `scan_comment` in
-- src/scanner/mod.rs).
use yamlrocks.Common.{
  ℕ, suc, true, false, not, ◌&&◌, ◌||◌, Option, none, some, [], ◌∷◌, ◌++◌, Text, length, reverse,
  ◌==◌, if◌then◌else◌,
}
use yamlrocks.Common.Whitespace.{trim_start}
use yamlrocks.Scanner.CharClass.{is_break, is_flow_indicator}
use yamlrocks.Scanner.Reader.{Reader, peek, advance, advance_line, peek_after_blanks}
use yamlrocks.Scanner.Source.{prev_is_whitespace_or_start}
use yamlrocks.Scanner.Runs.{skip_space_run, take_until_line_break}
use yamlrocks.Scanner.Outcome.{tab_indent, Scan, ok, err, Step, done, more, iterate}
use yamlrocks.Scanner.Quoted.{none_or}
use yamlrocks.Scanner.State.{Scanner, SimpleKey, in_flow}

-- `trim_end`
abbrev trim_end : Text → Text
trim_end text = reverse (trim_start (reverse text))

unfoldable pub scan_comment : Scanner → Scanner
scan_comment s =
    let behind : Reader = advance s.reader in
    let start : Reader = if peek behind == b' ' then advance behind else behind in
    let (comment, r) = take_until_line_break start in
    if s.record_comments
    then record s {
      reader = r;
      comments = s.comments ++ record { text = trim_end comment; span = s.reader.pos } ∷ [];
    }
    else record s { reader = r }

-- A key of another line can no longer be one.
abbrev pub on_line : ℕ → Option SimpleKey → Option SimpleKey
on_line line none = none
on_line line (some k) = if k.line == line then some k else none

-- The branch of a line break.
unfoldable pub next_line : Scanner → Scanner
next_line s =
    let behind = advance_line s.reader in
    record s {
      reader = behind;
      on_doc_start_line = false;
      tab_before_token = false;
      simple_key = on_line behind.pos.line s.simple_key;
      simple_key_allowed = if in_flow s then s.simple_key_allowed else true;
    }

-- The branch of a tab.
unfoldable pub tab_step : Scanner → Step Scanner Scanner
tab_step s =
    let separating =
      none_or (λ c. is_break c || is_flow_indicator c) (peek_after_blanks s.reader) in
    if not (in_flow s)
    then more (record s { tab_before_token = true; reader = advance s.reader })
    else if s.reader.pos.column == 0 && not separating
    then done (err tab_indent s.reader.pos)
    else more (record s { reader = advance s.reader })

-- One turn of the loop. At the end of the input `peek` is NUL, which ends it.
unfoldable pub trivia_step : Scanner → Step Scanner Scanner
unfolding scan_comment next_line tab_step
trivia_step s =
    let ch = peek s.reader in
    if ch == b' '
    then more (record s { reader = skip_space_run s.reader })
    else if ch == b'\t'
    then tab_step s
    else if is_break ch
    then more (next_line s)
    else if ch == b'#' && prev_is_whitespace_or_start s.source s.reader
    then more (scan_comment s)
    else done (ok s)

unfoldable pub scan_to_next_token : Scanner → Scan Scanner
unfolding trivia_step
scan_to_next_token s =
    iterate trivia_step (suc (length s.reader.rest)) (record s { tab_before_token = false })
