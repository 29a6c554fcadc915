-- ===== src/Scanner/Fetch/Flow.antt =====
-- Flow collections (`fetch_flow_collection_start` to `fetch_flow_entry` in src/scanner/mod.rs).
use yamlrocks.Common.{
  ℕ, ◌+◌, ◌-◌, Bool, true, false, not, ◌&&◌, Option, none, some, [], ◌∷◌, List, leb, ◌==◌,
  if◌then◌else◌,
}
use yamlrocks.Scanner.Reader.{Span, advance, peek_after_blanks}
use yamlrocks.Scanner.Outcome.{
  too_deep, no_open_flow, mismatched_flow, multiline_collection_key, empty_flow_entry, Scan, ok,
  err, ◌>>=◌,
}
use yamlrocks.Scanner.Token.{
  TokenKind, flow_mapping_start, flow_mapping_end, flow_sequence_start, flow_sequence_end,
  flow_entry, token,
}
use yamlrocks.Scanner.State.{Scanner, push_back}
use yamlrocks.Scanner.Fetch.Indent.{below, check_no_block_trailing, note_possible_simple_key}

-- `MAX_FLOW_DEPTH`
abbrev pub max_flow_depth : ℕ
max_flow_depth = 1000

-- The kind of a collection: whether it is a mapping.
abbrev pub flow_start : Bool → TokenKind
flow_start true = flow_mapping_start
flow_start false = flow_sequence_start

abbrev pub flow_end : Bool → TokenKind
flow_end true = flow_mapping_end
flow_end false = flow_sequence_end

abbrev pub closer : Bool → ℕ
closer true = b'}'
closer false = b']'

-- What opening the outermost collection notes.
unfoldable pub note_outermost : Scanner → Scanner
note_outermost s =
    if s.flow_level == 0
    then note_possible_simple_key s.reader.pos
        (record s { flow_start_line = s.reader.pos.line; flow_block_indent = s.current_indent })
    else s

unfoldable pub fetch_flow_collection_start : Bool → Scanner → Scan Scanner
unfolding note_outermost
fetch_flow_collection_start mapping s =
    let noted = note_outermost s in
    if leb max_flow_depth s.flow_level
    then err too_deep s.reader.pos
    else ok (
        push_back (token (flow_start mapping) s.reader.pos) (record noted {
          reader = advance s.reader;
          flow_level = noted.flow_level + 1;
          flow_kinds = mapping ∷ noted.flow_kinds;
          simple_key_allowed = true;
          flow_value_seen = false;
          flow_need_sep = false;
          flow_explicit_key = false;
        }))

unfoldable pub followed_by_value_indicator : Scanner → Bool
followed_by_value_indicator s = is_colon (peek_after_blanks s.reader)
  where
    is_colon : Option ℕ → Bool
    is_colon none = false
    is_colon (some c) = c == b':'

-- `flow_kinds.pop() == Some(mapping)`
abbrev pub opened : Bool → List Bool → Bool
opened mapping [] = false
opened true (b ∷ bs) = b
opened false (b ∷ bs) = not b

-- The checks behind the outermost collection.
unfoldable pub check_one_line : Span → Scanner → Scan Scanner
check_one_line span s =
    if not (span.line == s.flow_start_line) && followed_by_value_indicator s
    then err multiline_collection_key span
    else ok s

unfoldable pub check_closed : Span → Scanner → Scan Scanner
unfolding check_one_line
check_closed span s =
    if s.flow_level == 0 then check_no_block_trailing s >>= check_one_line span else ok s

unfoldable pub fetch_flow_collection_end : Bool → Scanner → Scan Scanner
unfolding check_closed
fetch_flow_collection_end mapping s =
    let span = s.reader.pos in
    if s.flow_level == 0
    then err (no_open_flow (closer mapping)) span
    else if not (opened mapping s.flow_kinds)
    then err (mismatched_flow (closer mapping)) span
    else check_closed span (
        push_back (token (flow_end mapping) span) (record s {
          reader = advance s.reader;
          flow_level = s.flow_level - 1;
          flow_kinds = below s.flow_kinds;
          simple_key_allowed = false;
          flow_value_seen = true;
          flow_need_sep = true;
          flow_pending_key_line = span.line;
          flow_prev_json = true;
        }))

unfoldable pub fetch_flow_entry : Scanner → Scan Scanner
fetch_flow_entry s =
    if not s.flow_value_seen
    then err empty_flow_entry s.reader.pos
    else ok (
        push_back (token flow_entry s.reader.pos) (record s {
          reader = advance s.reader;
          simple_key_allowed = true;
          flow_value_seen = false;
          flow_need_sep = false;
          flow_explicit_key = false;
        }))
