-- ===== src/Parser.antt =====
-- The parser (src/parser/mod.rs, src/parser/event.rs): a token becomes an event.
pub mod Nesting
pub mod Keys
pub mod Ending
mod Tests
use yamlrocks.Common.{
  ℕ, zero, suc, Bool, true, false, Option, none, some, [], ◌∷◌, ◌++◌, List, Text, drop,
  if◌then◌else◌,
}
use yamlrocks.Resolver.Kind.{ScalarStyle}
use yamlrocks.Scanner.Reader.{Span}
use yamlrocks.Scanner.Outcome.{Scan, ok, err, stuck, Step, done, more, iterate, map, ◌>>=◌}
use yamlrocks.Scanner.Quoted.{Cow}
use yamlrocks.Scanner.Token.{TokenKind, Token}
use yamlrocks.Scanner.State.{Scanner, new}
use yamlrocks.Scanner.Fetch.Queue.{next_token}

pub data EventKind : Type 0 where
  stream_start stream_end document_start document_end : EventKind
  mapping_start sequence_start : Bool → EventKind
  mapping_end sequence_end block_end : EventKind
  key : Bool → EventKind
  value sequence_entry flow_entry : EventKind
  scalar : Cow → ScalarStyle → EventKind
  anchor alias tag directive : Text → EventKind

pub record Event : Type 0 where
  pub kind : EventKind
  pub span : Span
  pub end_offset : ℕ

-- `Event::new`, and `Event::with_end`
abbrev pub event : EventKind → Span → Event
event kind span = record { kind = kind; span = span; end_offset = span.offset }

abbrev pub event_to : EventKind → Span → ℕ → Event
event_to kind span end_offset = record { kind = kind; span = span; end_offset = end_offset }

-- The `match` of `token_to_event`.
unfoldable pub kind_to_event : TokenKind → Span → ℕ → Event
kind_to_event TokenKind.stream_start span end_offset = event stream_start span
kind_to_event TokenKind.stream_end span end_offset = event stream_end span
kind_to_event TokenKind.document_start span end_offset = event document_start span
kind_to_event TokenKind.document_end span end_offset = event document_end span
kind_to_event TokenKind.block_mapping_start span end_offset = event (mapping_start false) span
kind_to_event TokenKind.block_sequence_start span end_offset = event (sequence_start false) span
kind_to_event TokenKind.block_end span end_offset = event block_end span
kind_to_event TokenKind.flow_mapping_start span end_offset = event (mapping_start true) span
kind_to_event TokenKind.flow_mapping_end span end_offset = event mapping_end span
kind_to_event TokenKind.flow_sequence_start span end_offset = event (sequence_start true) span
kind_to_event TokenKind.flow_sequence_end span end_offset = event sequence_end span
kind_to_event (TokenKind.key explicit) span end_offset = event (key explicit) span
kind_to_event TokenKind.value span end_offset = event value span
kind_to_event TokenKind.block_entry span end_offset = event sequence_entry span
kind_to_event TokenKind.flow_entry span end_offset = event flow_entry span
kind_to_event (TokenKind.scalar text style) span end_offset =
    event_to (scalar text style) span end_offset
kind_to_event (TokenKind.anchor name) span end_offset = event (anchor name) span
kind_to_event (TokenKind.alias name) span end_offset = event (alias name) span
kind_to_event (TokenKind.tag text) span end_offset = event (tag text) span
kind_to_event (TokenKind.directive text) span end_offset = event (directive text) span

unfoldable pub token_to_event : Token → Event
unfolding kind_to_event
token_to_event t = kind_to_event t.kind t.span t.end_offset

pub record Parser : Type 0 where
  pub scanner : Scanner
  pub peeked : Option Token

unfoldable pub new_parser : Text → Parser
unfolding new
new_parser input = record { scanner = new input; peeked = none }

abbrev pub with_scanner : Parser → Token × Scanner → Token × Parser
with_scanner p (t, s) = (t, record { scanner = s; peeked = none })

-- `Parser::next_token`
unfoldable pub parser_token : Parser → Scan (Token × Parser)
parser_token p = taken p.peeked
  where
    taken : Option Token → Scan (Token × Parser)
    taken (some t) = ok (t, record p { peeked = none })
    taken none = map (with_scanner p) (next_token p.scanner)

abbrev pub to_event : Token × Parser → Event × Parser
to_event (t, p) = (token_to_event t, p)

unfoldable pub next_event : Parser → Scan (Event × Parser)
unfolding parser_token
next_event p = map to_event (parser_token p)

abbrev pub is_end : EventKind → Bool
is_end stream_end = true
is_end _ = false

-- One turn of the loop of `parse_all`, behind the events so far
abbrev pub turned : List Event → Scan (Event × Parser) → Step (List Event × Parser) (List Event)
turned es (ok (e, p)) = if is_end e.kind then done (ok (es ++ e ∷ [])) else more (es ++ e ∷ [], p)
turned es (err m s) = done (err m s)
turned es stuck = done stuck

unfoldable pub parse_step : List Event × Parser → Step (List Event × Parser) (List Event)
unfolding next_event
parse_step (es, p) = turned es (next_event p)

-- The loop of `parse_all`, with as many turns as the fuel
unfoldable pub parse_all : ℕ → Parser → Scan (List Event)
unfolding parse_step
parse_all fuel p = iterate parse_step fuel ([], p)

-- `n` more turns of the loop of `parse_all`, behind the events `es`
unfoldable pub events_from : ℕ → List Event → Parser → Scan (List Event × Parser)
unfolding next_event
events_from zero es p = ok (es, p)
events_from (suc n) es p = next_event p >>= λ q. events_from n (es ++ q.0 ∷ []) q.1

abbrev is_property : EventKind → Bool
is_property (anchor name) = true
is_property (tag text) = true
is_property _ = false

abbrev pub starts_block_collection : EventKind → Bool
starts_block_collection (mapping_start false) = true
starts_block_collection (sequence_start false) = true
starts_block_collection sequence_entry = true
starts_block_collection _ = false

-- Behind the properties of a node
unfoldable pub node_span : List Event → Option Span
node_span [] = none
node_span (e ∷ es) =
    let rest = node_span es in
    if is_property e.kind
    then rest
    else if starts_block_collection e.kind
    then some e.span
    else none

unfoldable pub block_collection_key_span : List Event → ℕ → Bool → Option Span
unfolding node_span
block_collection_key_span events start flow = if flow then none else node_span (drop start events)
