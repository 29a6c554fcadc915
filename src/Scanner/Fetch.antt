-- ===== src/Scanner/Fetch.antt =====
-- The dispatch on the next character (`fetch_next_token`, `fetch_flow_token`, `fetch_block_token` in
-- src/scanner/mod.rs).
pub mod Indent
pub mod Trivia
pub mod Document
pub mod Flow
pub mod Entry
pub mod Property
pub mod Content
pub mod Queue
use yamlrocks.Common.{
  ℕ, zero, suc, ◌+◌, Bool, true, false, not, ◌&&◌, ◌||◌, Option, none, some, [], ◌∷◌, List, Text,
  length, ltb, ◌==◌, if◌then◌else◌,
}
use yamlrocks.Common.Int.{ℤ, pos, negsuc}
use yamlrocks.Scanner.CharClass.{is_flow_indicator, is_whitespace_or_break, is_whitespace_or_flow}
use yamlrocks.Scanner.Reader.{Span, Reader, is_eof, peek, check_ahead, fourth, past}
use yamlrocks.Scanner.Source.{Source, bom_len}
use yamlrocks.Scanner.Runs.{peek_next, check_next_is_blank, check_next_is_break_or_eof}
use yamlrocks.Scanner.Printable.{as_bytes, check_printable}
use yamlrocks.Scanner.Outcome.{
  comment_needs_whitespace, flow_under_indented, unclosed_flow, marker_in_flow, missing_comma,
  multiline_flow_key, bare_dash, reserved_indicator, plain_comma, control_character, Scan, ok, err,
  stuck, Step, done, more, iterate, map, ◌>>=◌,
}
use yamlrocks.Scanner.Quoted.{none_or, at_most, at_document_marker}
use yamlrocks.Scanner.Token.{Token, stream_start, stream_end, token}
use yamlrocks.Scanner.State.{Scanner, SimpleKey, push_back, in_flow}
use Indent.{unwind_indents, close_seq_if_non_entry}
use Trivia.{scan_to_next_token}
use Document.{fetch_document_start, fetch_document_end, fetch_directive}
use Flow.{opened, fetch_flow_collection_start, fetch_flow_collection_end, fetch_flow_entry}
use Entry.{fetch_block_entry, fetch_key, fetch_value}
use Property.{fetch_anchor, fetch_alias, fetch_tag}
use Content.{
  fetch_single_quoted_scalar, fetch_double_quoted_scalar, fetch_block_scalar, fetch_plain_scalar,
}

abbrev pub seen : Scanner → Scanner
seen s = record s { flow_value_seen = true }

-- A node's fetch, which gives its flow entry a value
unfoldable pub flow_node : Scan Scanner → Scan Scanner
flow_node fetched = map seen fetched

-- Whether `ch` ends the node in front of it.
abbrev pub is_separator : ℕ → Reader → Bool
is_separator ch r =
    (ch == b']' || (ch == b'}' || (ch == b',' || (ch == b'#' || ch == b':'))))
    || ((ch == b'?' || ch == b'-') && none_or is_whitespace_or_flow (peek_next r))

-- The `match` of `fetch_flow_token`.
unfoldable pub flow_token : Bool → ℕ → Scanner → Scan Scanner
unfolding flow_node
flow_token prev_json ch s =
    let separated = none_or is_whitespace_or_flow (peek_next s.reader) in
    if ch == b'['
    then fetch_flow_collection_start false s
    else if ch == b'{'
    then fetch_flow_collection_start true s
    else if ch == b']'
    then fetch_flow_collection_end false s
    else if ch == b'}'
    then fetch_flow_collection_end true s
    else if ch == b','
    then fetch_flow_entry s
    else if ch == b':' && (prev_json || separated)
    then fetch_value s
    else if ch == b'?' && separated
    then fetch_key s
    else if ch == b'-' && separated
    then err bare_dash s.reader.pos
    else if ch == b'\''
    then flow_node (fetch_single_quoted_scalar s)
    else if ch == b'"'
    then flow_node (fetch_double_quoted_scalar s)
    else if ch == b'&'
    then flow_node (fetch_anchor s)
    else if ch == b'*'
    then flow_node (fetch_alias s)
    else if ch == b'!'
    then flow_node (fetch_tag s)
    else if ch == b'#'
    then err comment_needs_whitespace s.reader.pos
    else if ch == b'@' || ch == b'`'
    then err (reserved_indicator ch) s.reader.pos
    else flow_node (fetch_plain_scalar s)

unfoldable pub fetch_flow_token : ℕ → Scanner → Scan Scanner
unfolding flow_token
fetch_flow_token ch s =
    if at_document_marker s.reader
    then err marker_in_flow s.reader.pos
    else if not (is_separator ch s.reader) && s.flow_need_sep
    then err missing_comma s.reader.pos
    else if ch == b':'
        && (s.flow_need_sep
            && (not s.flow_explicit_key
                && (opened false s.flow_kinds
                    && not (s.flow_pending_key_line == s.reader.pos.line))))
    then err multiline_flow_key s.reader.pos
    else flow_token s.flow_prev_json ch (record s { flow_prev_json = false })

-- `...` or `---` at the start of a line
abbrev pub marker_of : ℕ → Scanner → Bool
marker_of c s =
    s.reader.pos.column == 0
    && (check_ahead s.reader (c ∷ c ∷ c ∷ [])
        && none_or is_whitespace_or_break (fourth s.reader.rest))

-- The `match` of `fetch_block_token`.
unfoldable pub block_token : Bool → ℕ → Scanner → Scan Scanner
block_token after_entry ch s =
    let spaced = none_or is_whitespace_or_break (peek_next s.reader) in
    if ch == b'-' && (check_next_is_blank s.reader || check_next_is_break_or_eof s.reader)
    then fetch_block_entry after_entry s
    else if ch == b'-' && marker_of b'-' s
    then fetch_document_start s
    else if ch == b'.' && marker_of b'.' s
    then fetch_document_end s
    else if ch == b'%' && s.reader.pos.column == 0
    then fetch_directive s
    else if ch == b'['
    then fetch_flow_collection_start false s
    else if ch == b'{'
    then fetch_flow_collection_start true s
    else if ch == b']'
    then fetch_flow_collection_end false s
    else if ch == b'}'
    then fetch_flow_collection_end true s
    else if ch == b'?' && spaced
    then fetch_key s
    else if ch == b':' && spaced
    then fetch_value s
    else if ch == b','
    then err plain_comma s.reader.pos
    else if ch == b'\''
    then fetch_single_quoted_scalar s
    else if ch == b'"'
    then fetch_double_quoted_scalar s
    else if ch == b'|'
    then fetch_block_scalar true s
    else if ch == b'>'
    then fetch_block_scalar false s
    else if ch == b'&'
    then fetch_anchor s
    else if ch == b'*'
    then fetch_alias s
    else if ch == b'!'
    then fetch_tag s
    else if ch == b'#'
    then err comment_needs_whitespace s.reader.pos
    else if ch == b'@' || ch == b'`'
    then err (reserved_indicator ch) s.reader.pos
    else fetch_plain_scalar s

-- The flags that a block token settles.
unfoldable pub settled : ℕ → Scanner → Scanner
settled ch s = record s {
  block_value_pending = (ch == b'&' || ch == b'!') && s.block_value_pending;
  after_block_entry = false;
  directives_allowed =
      ((ch == b'%' && s.reader.pos.column == 0) || (ch == b'.' && marker_of b'.' s))
      && s.directives_allowed;
}

unfoldable pub fetch_block_token : ℕ → Scanner → Scan Scanner
unfolding settled block_token
fetch_block_token ch s = block_token s.after_block_entry ch (settled ch s)

unfoldable pub fetch_next_token : Scanner → Scan Scanner
fetch_next_token s =
    if in_flow s then fetch_flow_token (peek s.reader) s else fetch_block_token (peek s.reader) s
