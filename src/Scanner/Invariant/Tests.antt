-- ===== src/Scanner/Invariant/Tests.antt =====
-- The theorems on the token scanner at concrete inputs.
use yamlrocks.Common.{
  false, true, false, some, [], ◌∷◌, ◌++◌, ◌+◌, List, Text, codes, take, ◌≤◌, ◌≡◌, refl, inl, arith,
}
use yamlrocks.Common.Int.{pos, negsuc}
use yamlrocks.Scanner.Reader.{Span, Reader, advance}
use yamlrocks.Scanner.Source.{new_source, new_reader}
use yamlrocks.Scanner.Outcome.{Scan, control_character, ok, err, stuck, Within}
use yamlrocks.Scanner.Quoted.{borrowed}
use yamlrocks.Scanner.Quoted.Within.{left}
use yamlrocks.Scanner.Block.{scan_block}
use yamlrocks.Scanner.Block.Total.{scan_block-advance}
use yamlrocks.Scanner.Plain.{scan_plain}
use yamlrocks.Scanner.Plain.Total.{scan_plain-Within}
use yamlrocks.Scanner.Token.{block_mapping_start, block_end, Token, anchor, stream_end, token}
use yamlrocks.Scanner.State.{Scanner, new}
use yamlrocks.Scanner.Fetch.Indent.{unwind_indents}
use yamlrocks.Scanner.Fetch.Trivia.{scan_to_next_token}
use yamlrocks.Scanner.Fetch.Entry.{fetch_value}
use yamlrocks.Scanner.Fetch.Queue.{next_token}
use yamlrocks.Scanner.Invariant.Nesting.{nesting}
use yamlrocks.Scanner.Invariant.Live.{core, Live}
use yamlrocks.Scanner.Invariant.Reaches.{Reaches}
use yamlrocks.Scanner.Invariant.Closing.{ClosesTo, unwind_indents-ClosesTo}
use yamlrocks.Scanner.Invariant.Entry.{Good}
use yamlrocks.Scanner.Invariant.Entry.Keys.{fetch_value-Good}
use yamlrocks.Scanner.Invariant.Trivia.{Near, scan_to_next_token-Near}
use yamlrocks.Scanner.Invariant.Stream.{Valid, new-Fresh}
use yamlrocks.Scanner.Invariant.Stream.Next.{Handed, next_token-Valid}
use yamlrocks.Emit.Scalar.{is_non_printable}
use yamlrocks.Scanner.Invariant.Control.{bytes, first_tokens-control}
use yamlrocks.Scanner.Invariant.Prefix.{first_tokens, first_tokens-Valid, stream_end-closed}

abbrev here : Span
here = record { line = 0; column = 0; offset = 0 }

abbrev nested_text : Text
nested_text = codes "a: [b, {c: d}]\n- e\n"

first_tokens-Valid_example : Reaches (λ p. Valid p.0 p.1) (first_tokens 12 nested_text)
first_tokens-Valid_example = first_tokens-Valid 12 nested_text

next_token-Valid_example : Reaches (Handed []) (next_token (new nested_text))
next_token-Valid_example = next_token-Valid [] (new nested_text) (inl (new-Fresh nested_text))

scan_plain-Within_example :
    Within 11 (scan_plain false (pos 0) (record { rest = codes "a b\n  c # d"; pos = here }))
scan_plain-Within_example =
    scan_plain-Within false (pos 0) (record { rest = codes "a b\n  c # d"; pos = here })

abbrev block_reader : Reader
block_reader = record { rest = codes "|+\n  a\n\n  b\n"; pos = here }

scan_block-advance_example :
    Reaches
      (λ p. left p.1 ≤ left (advance block_reader))
      (scan_block (new_source []) true (pos 0) block_reader)
scan_block-advance_example = scan_block-advance (new_source []) true (pos 0) block_reader

-- Behind `&k`, which a `:` makes a key.
abbrev anchored : Scanner
anchored = record (new (codes ": b")) {
  stream_started = true;
  tokens = token (anchor (b'k' ∷ [])) here ∷ [];
  simple_key = some (record { index = 0; column = 0; line = 0; had_tab = false });
}

anchored-Live : Live [] (core anchored)
unfolding new
anchored-Live = record {
  nested = refl;
  level = refl;
  bounded = omega arith;
  levels = (refl, refl);
  key = ([], anchored.tokens, 0, refl, refl, refl, refl);
  running = (refl, refl);
}

fetch_value-Good_example : Reaches (Good [] (left anchored.reader)) (fetch_value anchored)
unfolding new new_reader
fetch_value-Good_example = fetch_value-Good [] anchored anchored-Live (omega arith)

scan_to_next_token-Near_example :
    Reaches (Near [] (left anchored.reader)) (scan_to_next_token anchored)
scan_to_next_token-Near_example = scan_to_next_token-Near [] anchored anchored-Live

-- Two block mappings, at the columns 0 and 2
abbrev two_levels : Scanner
two_levels = record (new (codes "b: c")) {
  stream_started = true;
  current_indent = pos 2;
  indent_stack = pos 0 ∷ negsuc 0 ∷ [];
  indent_kinds = false ∷ false ∷ [];
}

abbrev two_starts : List Token
two_starts = token block_mapping_start here ∷ token block_mapping_start here ∷ []

two_levels-Live : Live two_starts (core two_levels)
unfolding new
two_levels-Live = record {
  nested = refl;
  level = refl;
  bounded = omega arith;
  levels = (refl, (refl, (refl, refl)));
  key = tt;
  running = (refl, refl);
}

unwind_indents-ClosesTo_example :
    Live two_starts (core (unwind_indents (pos 0) two_levels))
    × ClosesTo (pos 0) two_levels (unwind_indents (pos 0) two_levels)
unfolding new
unwind_indents-ClosesTo_example =
    unwind_indents-ClosesTo two_starts (pos 0) two_levels refl refl two_levels-Live

one_closed : (unwind_indents (pos 0) two_levels).tokens ≡ token block_end two_levels.reader.pos ∷ []
unfolding new unwind_indents
one_closed = refl

abbrev short_text : Text
short_text = codes "x"

abbrev tokens_of : Scan (List Token × Scanner) → List Token
tokens_of (ok (ts, s)) = ts
tokens_of (err m p) = []
tokens_of stuck = []

abbrev scanner_of : Scan (List Token × Scanner) → Scanner
scanner_of (ok (ts, s)) = s
scanner_of (err m p) = anchored
scanner_of stuck = anchored

abbrev front : List Token
front = take 2 (tokens_of (first_tokens 3 short_text))

abbrev last_token : Token
last_token = token stream_end (record { line = 0; column = 1; offset = 1 })

short_tokens :
    first_tokens 3 short_text
    ≡ ok (front ++ last_token ∷ [], scanner_of (first_tokens 3 short_text))
unfolding first_tokens next_token new new_reader yamlrocks.Scanner.Printable.check_printable
    yamlrocks.Scanner.Printable.as_bytes yamlrocks.Scanner.Printable.encode
    yamlrocks.Scanner.Printable.is_bad scan_to_next_token yamlrocks.Scanner.CharClass.is_break
    yamlrocks.Scanner.Fetch.Indent.close_seq_if_non_entry unwind_indents
    yamlrocks.Scanner.Fetch.fetch_block_token yamlrocks.Scanner.Fetch.Content.fetch_plain_scalar
    scan_plain yamlrocks.Scanner.Plain.step yamlrocks.Scanner.Plain.ends_plain
    yamlrocks.Scanner.CharClass.is_blank_byte yamlrocks.Scanner.Plain.take_content
    yamlrocks.Scanner.Runs.take_plain_line_run yamlrocks.Scanner.CharClass.plain_line_stop_table
    yamlrocks.Scanner.Reader.take_run yamlrocks.Scanner.Reader.past
    yamlrocks.Scanner.Reader.len_utf8 yamlrocks.Scanner.Quoted.trim_trailing_blanks
    yamlrocks.Scanner.Plain.finish yamlrocks.Scanner.Fetch.Content.is_plain_key
    yamlrocks.Scanner.Fetch.fetch_next_token yamlrocks.Scanner.Fetch.block_token
    yamlrocks.Scanner.Fetch.settled
short_tokens = refl

stream_end-closed_example : nesting (0, []) front ≡ some (0, [])
stream_end-closed_example =
    stream_end-closed 3 short_text front last_token (scanner_of (first_tokens 3 short_text))
      short_tokens refl

-- `a: ` and a bell
abbrev bell_text : Text
bell_text = codes "a: " ++ 7 ∷ codes "b"

first_tokens-control_example :
    (span : Span) × (first_tokens 3 bell_text ≡ err (control_character 7) span)
    × (span.offset ≡ (new_reader bell_text).pos.offset + bytes (codes "a: "))
unfolding new_reader is_non_printable
first_tokens-control_example =
    first_tokens-control 2 bell_text (codes "a: ") 7 (codes "b") refl refl refl
