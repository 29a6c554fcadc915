-- ===== src/Scanner/Fetch/Property.antt =====
-- Anchors, aliases and tags (`check_property_value_indent`, `fetch_anchor`, `fetch_alias`,
-- `fetch_tag` in src/scanner/mod.rs).
use yamlrocks.Common.{
  ℕ, Bool, true, false, not, ◌&&◌, ◌||◌, [], ◌∷◌, ◌++◌, Text, is_empty, ◌==◌, if◌then◌else◌,
}
use yamlrocks.Scanner.CharClass.{is_anchor_char, is_whitespace_or_break}
use yamlrocks.Scanner.Reader.{Span, Reader, peek, advance, take_run}
use yamlrocks.Scanner.Outcome.{
  property_under_indented, no_anchor_name, no_alias_name, unterminated_tag, empty_tag, Scan, ok,
  err, map, ◌>>=◌,
}
use yamlrocks.Scanner.Quoted.{at_most}
use yamlrocks.Scanner.Token.{anchor, alias, tag, token}
use yamlrocks.Scanner.State.{Scanner, push_back, in_flow}
use yamlrocks.Scanner.Fetch.Indent.{note_possible_simple_key}

unfoldable pub check_property_value_indent : Scanner → Scan Scanner
check_property_value_indent s =
    if not (in_flow s) && (s.block_value_pending && at_most s.reader.pos.column s.current_indent)
    then err property_under_indented s.reader.pos
    else ok s

-- The characters of an anchor's name
abbrev pub take_name : Reader → Text × Reader
take_name r = take_run (λ c. not (is_anchor_char c)) r.rest r.pos

-- `if self.flow_level == 0 { self.property_line = span.line; }`
abbrev pub property_on : Span → Scanner → Scanner
property_on span s = record s { property_line = if in_flow s then s.property_line else span.line }

unfoldable pub take_anchor : Scanner → Scan Scanner
take_anchor s =
    let span = s.reader.pos in
    let (name, r) = take_name (advance s.reader) in
    if is_empty name
    then err no_anchor_name span
    else ok (
        push_back (token (anchor name) span)
          (record (property_on span (note_possible_simple_key span s)) {
            reader = r;
            simple_key_allowed = false;
          }))

unfoldable pub fetch_anchor : Scanner → Scan Scanner
unfolding take_anchor
fetch_anchor s = check_property_value_indent s >>= take_anchor

-- `if self.flow_level > 0 { self.flow_need_sep = true; self.flow_pending_key_line = span.line; }`
abbrev pub owe_separator : Span → Scanner → Scanner
owe_separator span s = record s {
  flow_need_sep = if in_flow s then true else s.flow_need_sep;
  flow_pending_key_line = if in_flow s then span.line else s.flow_pending_key_line;
}

unfoldable pub fetch_alias : Scanner → Scan Scanner
fetch_alias s =
    let span = s.reader.pos in
    let (name, r) = take_name (advance s.reader) in
    if is_empty name
    then err no_alias_name span
    else ok (
        push_back (token (alias name) span)
          (record (owe_separator span (note_possible_simple_key span s)) {
            reader = r;
            simple_key_allowed = false;
          }))

abbrev pub ends_tag : ℕ → Bool
ends_tag c = is_whitespace_or_break c || (c == b',' || (c == b']' || c == b'}'))

-- `!!suffix`, `!suffix` or `!`: every one of them is the source's own text, `bangs` its start.
unfoldable pub take_suffix : Text → Reader → Scan (Text × Reader)
take_suffix bangs r =
    let (suffix, behind) = take_run ends_tag r.rest r.pos in ok (bangs ++ suffix, behind)

-- `!<tag>`, from behind the `<`
unfoldable pub take_verbatim : Span → Reader → Scan (Text × Reader)
take_verbatim span r =
    let (inner, behind) = take_run (λ c. c == b'>' || is_whitespace_or_break c) r.rest r.pos in
    if not (peek behind == b'>')
    then err unterminated_tag span
    else if is_empty inner
    then err empty_tag span
    else ok ((b'!' ∷ b'<' ∷ inner) ++ b'>' ∷ [], advance behind)

-- The text of a tag, and the reader behind it
unfoldable pub scan_tag : Reader → Scan (Text × Reader)
unfolding take_suffix take_verbatim
scan_tag start =
    let r = advance start in
    if peek r == b'!'
    then take_suffix (b'!' ∷ b'!' ∷ []) (advance r)
    else if peek r == b'<'
    then take_verbatim start.pos (advance r)
    else take_suffix (b'!' ∷ []) r

unfoldable pub push_tag : Scanner → Text × Reader → Scanner
push_tag s (text, r) =
    let span = s.reader.pos in
    push_back (token (tag text) span) (record (property_on span (note_possible_simple_key span s)) {
      reader = r;
      simple_key_allowed = false;
    })

unfoldable pub take_tag : Scanner → Scan Scanner
unfolding scan_tag push_tag
take_tag s = map (push_tag s) (scan_tag s.reader)

unfoldable pub fetch_tag : Scanner → Scan Scanner
unfolding take_tag
fetch_tag s = check_property_value_indent s >>= take_tag
