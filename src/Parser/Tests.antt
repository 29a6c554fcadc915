-- ===== src/Parser/Tests.antt =====
-- The theorems on events at concrete inputs.
use yamlrocks.Common.{ℕ, false, some, [], ◌∷◌, Text, codes, List, drop, false, ◌↔◌, ◌≡◌, refl}
use yamlrocks.Scanner.Reader.{Span}
use yamlrocks.Scanner.Invariant.Nesting.{Nest}
use yamlrocks.Scanner.Invariant.Reaches.{Reaches}
use yamlrocks.Parser.{
  Event, event, anchor, sequence_start, stream_start, new_parser, parse_all, events_from,
  block_collection_key_span, node_span,
}
use yamlrocks.Parser.Nesting.{events_nesting, events_from-nesting}
use yamlrocks.Parser.Ending.{WholeStream, parse_all-WholeStream}
use yamlrocks.Parser.Keys.{StartsAt, block_collection_key_span_iff}

abbrev nested_text : Text
nested_text = codes "a: [b, {c: d}]\n- e\n"

events_from-nesting_example :
    Reaches
      (λ q. (a : Nest) × (events_nesting (0, []) q.0 ≡ some a))
      (events_from 12 [] (new_parser nested_text))
events_from-nesting_example = events_from-nesting 12 nested_text

parse_all-WholeStream_example :
    (fuel : ℕ) × Reaches WholeStream (parse_all fuel (new_parser nested_text))
parse_all-WholeStream_example = parse_all-WholeStream nested_text

abbrev key_span : Span
key_span = record { line = 1; column = 2; offset = 9 }

abbrev anchored_event : Event
anchored_event = event (anchor (b'k' ∷ [])) key_span

abbrev sequence_event : Event
sequence_event = event (sequence_start false) key_span

abbrev key_events : List Event
key_events = event stream_start key_span ∷ anchored_event ∷ sequence_event ∷ []

block_collection_key_span_iff_example :
    (block_collection_key_span key_events 1 false ≡ some key_span)
    ↔ ((false ≡ false) × StartsAt (drop 1 key_events) key_span)
block_collection_key_span_iff_example = block_collection_key_span_iff key_events 1 false key_span

reported : block_collection_key_span key_events 1 false ≡ some key_span
unfolding block_collection_key_span node_span
reported = refl
