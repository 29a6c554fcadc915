-- ===== src/Scanner/Fetch/Content.antt =====
-- The tokens of scalars (`fetch_single_quoted_scalar` to `fetch_plain_scalar` in
-- src/scanner/mod.rs).
use yamlrocks.Common.{
  ℕ, ◌-◌, ◌^◌, Bool, true, false, not, ◌&&◌, ◌||◌, Option, none, some, ltb, ◌==◌, if◌then◌else◌,
}
use yamlrocks.Common.Int.{ℤ, negsuc}
use yamlrocks.Resolver.Kind.{ScalarStyle, plain, single_quoted, double_quoted, literal, folded}
use yamlrocks.Scanner.CharClass.{is_flow_indicator, is_whitespace_or_break}
use yamlrocks.Scanner.Reader.{Span, Reader, peek, advance}
use yamlrocks.Scanner.Runs.{peek_next, skip_space_run}
use yamlrocks.Scanner.Outcome.{
  missing_comma, multiline_flow_key, multiline_key, tab_indent, Scan, ok, err, map, ◌>>=◌,
}
use yamlrocks.Scanner.Quoted.{Cow, none_or}
use yamlrocks.Scanner.Quoted.Single.{scan_single_quoted}
use yamlrocks.Scanner.Quoted.Double.{scan_double_quoted}
use yamlrocks.Scanner.Block.{scan_block}
use yamlrocks.Scanner.Plain.{scan_plain}
use yamlrocks.Scanner.Token.{Token, block_mapping_start, key, value, scalar, token}
use yamlrocks.Scanner.State.{Scanner, push_back, in_flow}
use yamlrocks.Scanner.Fetch.Indent.{roll_indent, check_no_block_trailing}
use yamlrocks.Scanner.Fetch.Trivia.{on_line}
use yamlrocks.Scanner.Fetch.Flow.{opened}
use yamlrocks.Scanner.Fetch.Entry.{skip_space}
use yamlrocks.Scanner.Fetch.Property.{owe_separator}

-- A scalar's token, with its end.
abbrev pub scalar_token : Cow → ScalarStyle → Span → ℕ → Token
scalar_token cow style span content_end = record {
  kind = scalar cow style;
  span = span;
  end_offset = content_end;
}

-- `i32::MIN`
abbrev i32_min : ℤ
i32_min = negsuc (2 ^ 31 - 1)

unfoldable pub quoted_parent_indent : Scanner → ℤ
quoted_parent_indent s = if in_flow s then i32_min else s.current_indent

abbrev some_and : (ℕ → Bool) → Option ℕ → Bool
some_and p none = false
some_and p (some c) = p c

-- Whether a `:` with `next` behind it is a value indicator.
abbrev pub indicates_value : Bool → Option ℕ → Bool
indicates_value flow next =
    none_or is_whitespace_or_break next || (flow && some_and is_flow_indicator next)

-- The answer, and the reader in front of the `:` or where it was.
unfoldable pub check_value_after_scalar : Scanner → Bool × Reader
check_value_after_scalar s =
    let r = skip_space_run s.reader in
    if peek r == b':' && indicates_value (in_flow s) (peek_next r)
    then (true, r)
    else (false, s.reader)

-- The level that a key at `span` opens.
unfoldable pub roll_key : Bool → Span → Scanner → Scan Scanner
roll_key had_leading_tab span s =
    if in_flow s
    then ok s
    else if had_leading_tab
    then err tab_indent span
    else roll_indent span.column span block_mapping_start s

-- The key, its scalar, and the `:` that the reader stands in front of.
unfoldable pub push_key_value : Token → Scanner → Scanner
push_key_value t s =
    let val_span = s.reader.pos in
    push_back (token value val_span) (
      push_back t (
        push_back (token (key false) t.span) (record s {
          value_indicator_line = if in_flow s then s.value_indicator_line else val_span.line;
          block_value_pending = if in_flow s then s.block_value_pending else true;
          reader = skip_space (advance s.reader);
          flow_need_sep = false;
        })))

-- A quoted scalar that no `:` follows.
unfoldable pub push_quoted_value : Token → Scanner → Scanner
push_quoted_value t s = push_back t (record (owe_separator t.span s) {
  flow_prev_json = if in_flow s then true else s.flow_prev_json;
})

unfoldable pub finish_quoted_scalar :
    ScalarStyle → Span → Bool → Bool → Scanner → Cow × Reader → Scan Scanner
unfolding check_value_after_scalar roll_key push_key_value push_quoted_value
finish_quoted_scalar style span was_allowed had_leading_tab s (cow, r) =
    let t : Token = scalar_token cow style span r.pos.offset in
    let read : Scanner = record s { reader = r; simple_key_allowed = false } in
    let (follows, colon) = check_value_after_scalar read in
    if was_allowed && (not (in_flow s && s.flow_explicit_key) && follows)
    then if not (in_flow s) && not (span.line == r.pos.line)
      then err multiline_key span
      else map (push_key_value t) (roll_key had_leading_tab span (record read { reader = colon }))
    else map (push_quoted_value t) (check_no_block_trailing read)

unfoldable pub fetch_single_quoted_scalar : Scanner → Scan Scanner
unfolding finish_quoted_scalar
fetch_single_quoted_scalar s =
    scan_single_quoted (quoted_parent_indent s) s.reader
    >>= finish_quoted_scalar single_quoted s.reader.pos s.simple_key_allowed s.tab_before_token s

unfoldable pub fetch_double_quoted_scalar : Scanner → Scan Scanner
unfolding finish_quoted_scalar
fetch_double_quoted_scalar s =
    scan_double_quoted (quoted_parent_indent s) s.reader
    >>= finish_quoted_scalar double_quoted s.reader.pos s.simple_key_allowed s.tab_before_token s

unfoldable pub push_block_scalar_token : Bool → Scanner → Cow × Reader → Scanner
push_block_scalar_token is_literal s (cow, r) =
    push_back (scalar_token cow (if is_literal then literal else folded) s.reader.pos r.pos.offset)
      (record s { reader = r; simple_key_allowed = true; simple_key = none })

unfoldable pub fetch_block_scalar : Bool → Scanner → Scan Scanner
unfolding push_block_scalar_token
fetch_block_scalar is_literal s =
    map (push_block_scalar_token is_literal s)
      (scan_block s.source is_literal s.current_indent s.reader)

-- A plain scalar in front of a `:` that indicates its value.
unfoldable pub plain_key : Bool → Bool → Token → Scanner → Scan Scanner
unfolding roll_key push_key_value
plain_key crossed had_leading_tab t s =
    if not (in_flow s) && crossed
    then err multiline_key t.span
    else if in_flow s
        && (not s.flow_explicit_key
            && (opened false s.flow_kinds && not (s.reader.pos.line == t.span.line)))
    then err multiline_flow_key t.span
    else map (push_key_value t) (roll_key had_leading_tab t.span s)

-- A plain scalar that is no key.
unfoldable pub plain_value : Bool → Bool → Token → Scanner → Scan Scanner
plain_value explicit_key_pending crossed t s =
    if in_flow s
      && (not explicit_key_pending
          && (crossed
              && (peek s.reader == b':'
                  && none_or (λ c. is_whitespace_or_break c || is_flow_indicator c)
                      (peek_next s.reader))))
    then err missing_comma t.span
    else ok (push_back t (owe_separator t.span s))

-- Whether the `:` that the reader behind a plain scalar stands in front of makes it a key.
unfoldable pub is_plain_key : Scanner → Reader → Bool
is_plain_key s r =
    let crossed = ltb s.reader.pos.line r.pos.line in
    let shallow_colon = not (in_flow s) && (crossed && ltb r.pos.column s.reader.pos.column) in
    s.simple_key_allowed
    && (not (in_flow s && s.flow_explicit_key)
        && (peek r == b':' && (not shallow_colon && indicates_value (in_flow s) (peek_next r))))

-- Behind the scan of a plain scalar
unfoldable pub finish_plain_scalar : Scanner → (Cow × ℕ) × Reader → Scan Scanner
unfolding plain_key plain_value
finish_plain_scalar s ((cow, content_end), r) =
    let span = s.reader.pos in
    let t : Token = scalar_token cow plain span content_end in
    let crossed = ltb span.line r.pos.line in
    let read : Scanner = record s {
      reader = r;
      simple_key_allowed = not (in_flow s) && crossed;
      simple_key = if in_flow s then s.simple_key else on_line r.pos.line s.simple_key;
    } in
    if is_plain_key s r
    then plain_key crossed s.tab_before_token t read
    else plain_value (in_flow s && s.flow_explicit_key) crossed t read

unfoldable pub fetch_plain_scalar : Scanner → Scan Scanner
unfolding finish_plain_scalar
fetch_plain_scalar s = scan_plain (in_flow s) s.current_indent s.reader >>= finish_plain_scalar s
