-- ===== src/Scanner/Fetch/Entry.antt =====
-- Block entries, keys and values (`fetch_block_entry`, `fetch_key`, `fetch_value` in
-- src/scanner/mod.rs).
use yamlrocks.Common.{
  ℕ, zero, suc, Bool, true, false, not, ◌&&◌, Option, none, some, [], ◌∷◌, List, ◌==◌,
  if◌then◌else◌,
}
use yamlrocks.Common.Int.{pos, less}
use yamlrocks.Scanner.Reader.{Span, Reader, peek, advance}
use yamlrocks.Scanner.Outcome.{
  tab_indent, sequence_on_key_line, entry_after_property, entry_past_sequence, Scan, ok, err, stuck,
  map, ◌>>=◌,
}
use yamlrocks.Scanner.Token.{
  Token, block_mapping_start, block_sequence_start, block_entry, key, value, token,
}
use yamlrocks.Scanner.State.{Scanner, SimpleKey, push_back, in_flow}
use yamlrocks.Scanner.Fetch.Indent.{open_level, roll_indent}
use yamlrocks.Scanner.Fetch.Trivia.{on_line}

-- `if self.reader.peek() == ' ' { self.reader.advance(); }`
abbrev pub skip_space : Reader → Reader
skip_space r = if peek r == b' ' then advance r else r

-- Behind an opened level: the `-`, and a token for it.
unfoldable pub take_entry : Span → Scanner → Scanner
take_entry span s = push_back (token block_entry span) (record s {
  reader = skip_space (advance s.reader);
  simple_key_allowed = true;
  after_block_entry = true;
})

unfoldable pub fetch_block_entry : Bool → Scanner → Scan Scanner
unfolding take_entry
fetch_block_entry after_entry s =
    let span = s.reader.pos in
    if s.tab_before_token
    then err tab_indent span
    else if span.line == s.value_indicator_line
    then err sequence_on_key_line span
    else if span.line == s.property_line
    then err entry_after_property span
    else if less s.current_indent (pos span.column)
        && (s.current_is_seq && (not after_entry && s.unwound_block_level))
    then err entry_past_sequence span
    else map (take_entry span) (roll_indent span.column span block_sequence_start s)

-- Behind an opened level: the `?`, and a token for it.
unfoldable pub take_key : Span → Scanner → Scan Scanner
take_key span s =
    let behind = advance s.reader in
    if not (in_flow s) && peek behind == b'\t'
    then err tab_indent behind.pos
    else ok (
        push_back (token (key true) span) (record s {
          reader = skip_space behind;
          simple_key_allowed = true;
          flow_need_sep = false;
          flow_explicit_key = if in_flow s then true else s.flow_explicit_key;
        }))

unfoldable pub fetch_key : Scanner → Scan Scanner
unfolding take_key
fetch_key s =
    let span = s.reader.pos in
    if not (in_flow s) && s.tab_before_token
    then err tab_indent span
    else roll_indent span.column span block_mapping_start s >>= take_key span

-- `VecDeque::insert`, which panics behind the end: `stuck`
abbrev pub insert : ℕ → Token → List Token → Scan (List Token)
insert zero t ts = ok (t ∷ ts)
insert (suc n) t [] = stuck
insert (suc n) t (x ∷ xs) = map (λ ts. x ∷ ts) (insert n t xs)

abbrev pub set_tokens : Scanner → List Token → Scanner
set_tokens s ts = record s { tokens = ts }

-- The mapping start, if the key opens a mapping, and the key, in front of the buffered tokens.
unfoldable pub insert_key : SimpleKey → Span → Scanner → Scan Scanner
unfolding open_level
insert_key k key_span s =
    if less s.current_indent (pos k.column)
    then map (set_tokens (open_level k.column false s)) (
        insert k.index (token block_mapping_start key_span) s.tokens
        >>= insert (suc k.index) (token (key false) key_span))
    else map (set_tokens s) (insert k.index (token (key false) key_span) s.tokens)

-- The key of a value in block context, where `k` is the simple key of its line.
unfoldable pub value_key : Span → Option SimpleKey → Scanner → Scan Scanner
unfolding insert_key
value_key span none s = roll_indent span.column span block_mapping_start s
value_key span (some k) s =
    if k.had_tab
    then err tab_indent span
    else insert_key k (record span { line = k.line; column = k.column }) s

unfoldable pub open_value : Scanner → Scan Scanner
unfolding value_key
open_value s =
    let span = s.reader.pos in
    if in_flow s
    then ok s
    else value_key span (on_line span.line s.simple_key) (record s { simple_key = none })

unfoldable pub take_value : Span → Scanner → Scanner
take_value span s = push_back (token value span) (record s {
  reader = skip_space (advance s.reader);
  simple_key_allowed = true;
  flow_need_sep = false;
  flow_explicit_key = false;
  block_value_pending = if in_flow s then s.block_value_pending else true;
})

unfoldable pub fetch_value : Scanner → Scan Scanner
unfolding open_value take_value
fetch_value s = map (take_value s.reader.pos) (open_value s)
