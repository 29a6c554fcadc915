-- ===== src/Scanner/Fetch/Queue.antt =====
-- The queue of tokens (`fetch_more_tokens`, `next_token` in src/scanner/mod.rs).
use yamlrocks.Common.{
  ℕ, suc, ◌+◌, Bool, true, false, not, ◌&&◌, Option, none, some, [], ◌∷◌, List, Text, length, ltb,
  ◌==◌, if◌then◌else◌,
}
use yamlrocks.Common.Int.{pos, negsuc}
use yamlrocks.Scanner.Reader.{Span, is_eof, past}
use yamlrocks.Scanner.Printable.{as_bytes, check_printable}
use yamlrocks.Scanner.Outcome.{
  flow_under_indented, unclosed_flow, control_character, Scan, ok, err, stuck, Step, done, more,
  iterate, map, ◌>>=◌,
}
use yamlrocks.Scanner.Quoted.{at_most}
use yamlrocks.Scanner.Token.{Token, stream_start, stream_end, token}
use yamlrocks.Scanner.State.{Scanner, SimpleKey, push_back, in_flow}
use yamlrocks.Scanner.Fetch.Indent.{unwind_indents, close_seq_if_non_entry}
use yamlrocks.Scanner.Fetch.Trivia.{scan_to_next_token}
use yamlrocks.Scanner.Fetch.{fetch_next_token}

-- The position behind a character, with a CRLF counted as one break.
unfoldable pub passed : Bool → ℕ → Span → Span
unfolding past
passed prev_cr c s =
    if c == b'\n'
    then if prev_cr
      then record (past c s) { column = s.column }
      else record (past c s) { line = s.line + 1; column = 0 }
    else if c == b'\r'
    then record (past c s) { line = s.line + 1; column = 0 }
    else past c s

-- The error for the character at `offset`, from a position in front of it
unfoldable pub non_printable_error : Bool → ℕ → Span → Text → Scan Scanner
unfolding passed
non_printable_error prev_cr offset s [] = err (control_character 0) s
non_printable_error prev_cr offset s (c ∷ cs) =
    let rest = non_printable_error (c == b'\r') offset (passed prev_cr c s) cs in
    if ltb s.offset offset then rest else err (control_character c) s

abbrev pub printed : Scanner → Option ℕ → Scan Scanner
printed s none = ok s
printed s (some offset) = non_printable_error false offset s.reader.pos s.reader.rest

-- The start of the stream
unfoldable pub fetch_stream_start : Scanner → Scan Scanner
unfolding non_printable_error
fetch_stream_start s = map (push_back (token stream_start s.reader.pos)) (
    printed (record s { stream_started = true })
      (check_printable s.reader.pos.offset (as_bytes s.reader.rest)))

-- The end of the stream
unfoldable pub fetch_stream_end : Scanner → Scan Scanner
fetch_stream_end s =
    let closed : Scanner = unwind_indents (negsuc 0) (record s { simple_key = none }) in
    if in_flow s
    then err unclosed_flow s.reader.pos
    else ok (push_back (token stream_end s.reader.pos) (record closed { stream_ended = true }))

-- Levels that the indentation of the next token closes
unfoldable pub close_levels : Scanner → Scanner
close_levels s =
    let closed : Scanner =
      unwind_indents (pos s.reader.pos.column) (record s { unwound_block_level = false }) in
    if in_flow s then s else close_seq_if_non_entry closed

-- Behind the white space; `line_before` is the line in front of it.
unfoldable pub fetch_at : ℕ → Scanner → Scan Scanner
unfolding fetch_next_token fetch_stream_end close_levels
fetch_at line_before s =
    if is_eof s.reader
    then if s.stream_ended then ok s else fetch_stream_end s
    else if in_flow s
        && (ltb line_before s.reader.pos.line && at_most s.reader.pos.column s.flow_block_indent)
    then err flow_under_indented s.reader.pos
    else fetch_next_token (close_levels s)

unfoldable pub fetch_more_tokens : Scanner → Scan Scanner
unfolding fetch_at fetch_stream_start
fetch_more_tokens s =
    if not s.stream_started
    then fetch_stream_start s
    else scan_to_next_token s >>= fetch_at s.reader.pos.line

-- The result of `next_token`: a token, and the state behind it.
abbrev pub handed : Scanner → List Token → Step Scanner (Token × Scanner)
handed s [] = done (ok (token stream_end s.reader.pos, s))
handed s (t ∷ ts) = done (ok (t, record s { tokens = ts }))

-- Whether a token may be handed out.
abbrev pub waiting : Option SimpleKey → List Token → Bool
waiting none (t ∷ ts) = true
waiting none [] = false
waiting (some k) ts = false

abbrev pub ready : Scanner → Bool
ready s = if s.stream_ended then true else waiting s.simple_key s.tokens

abbrev pub fetched : Scan Scanner → Step Scanner (Token × Scanner)
fetched (ok s) = more s
fetched (err m s) = done (err m s)
fetched stuck = done stuck

-- One turn of the loop of `next_token`.
unfoldable pub next_step : Scanner → Step Scanner (Token × Scanner)
unfolding fetch_more_tokens
next_step s = if ready s then handed s s.tokens else fetched (fetch_more_tokens s)

-- A turn that fetches takes a character, or starts or ends the stream.
unfoldable pub next_token : Scanner → Scan (Token × Scanner)
unfolding next_step
next_token s = iterate next_step (suc (suc (suc (suc (length s.reader.rest))))) s
