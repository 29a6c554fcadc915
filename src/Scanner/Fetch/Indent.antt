-- ===== src/Scanner/Fetch/Indent.antt =====
-- Block indentation (`roll_indent` to `close_seq_if_non_entry` in src/scanner/mod.rs), and what may
-- stand behind a node.
use yamlrocks.Common.{
  ℕ, zero, suc, Bool, true, false, not, ◌&&◌, ◌||◌, Option, none, some, [], ◌∷◌, List, length, ◌==◌,
  if◌then◌else◌,
}
use yamlrocks.Common.Int.{ℤ, pos, negsuc, less}
use yamlrocks.Scanner.CharClass.{is_break}
use yamlrocks.Scanner.Reader.{Span, peek, peek_after_blanks}
use yamlrocks.Scanner.Runs.{check_next_is_blank, check_next_is_break_or_eof}
use yamlrocks.Scanner.Outcome.{content_after_node, collection_on_marker_line, Scan, ok, err}
use yamlrocks.Scanner.Token.{TokenKind, block_sequence_start, block_end, token}
use yamlrocks.Scanner.State.{Scanner, SimpleKey, push_back, in_flow}

abbrev pub is_sequence_start : TokenKind → Bool
is_sequence_start block_sequence_start = true
is_sequence_start _ = false

-- The level that a collection at `column` opens.
unfoldable pub open_level : ℕ → Bool → Scanner → Scanner
open_level column is_seq s = record s {
  indent_stack = s.current_indent ∷ s.indent_stack;
  indent_kinds = s.current_is_seq ∷ s.indent_kinds;
  current_indent = pos column;
  current_is_seq = is_seq;
}

unfoldable pub roll_indent : ℕ → Span → TokenKind → Scanner → Scan Scanner
unfolding open_level
roll_indent column span kind s =
    if in_flow s
    then ok s
    else if s.on_doc_start_line
    then err collection_on_marker_line span
    else if less s.current_indent (pos column)
    then ok (push_back (token kind span) (open_level column (is_sequence_start kind) s))
    else ok s

-- `pop().unwrap_or(d)`
abbrev pub popped_or {ℓ} : {A : Type ℓ} → A → List A → A
popped_or d [] = d
popped_or d (x ∷ xs) = x

abbrev pub below {ℓ} : {A : Type ℓ} → List A → List A
below [] = []
below (x ∷ xs) = xs

-- The end of the innermost level, which both ways of closing one push and pop.
unfoldable pub close_level : Scanner → Scanner
close_level s = push_back (token block_end s.reader.pos) (record s {
  current_indent = popped_or (negsuc 0) s.indent_stack;
  indent_stack = below s.indent_stack;
  current_is_seq = popped_or false s.indent_kinds;
  indent_kinds = below s.indent_kinds;
})

abbrev pub unwound : Scanner → Scanner
unwound s = record s { unwound_block_level = true }

-- The loop of `unwind_indents`. A turn takes a level off the stack, or is the last one.
unfoldable pub unwind : ℕ → ℤ → Scanner → Scanner
unfolding close_level
unwind zero column s = s
unwind (suc fuel) column s =
    let rest = unwind fuel column (unwound (close_level s)) in
    if less column s.current_indent then rest else s

unfoldable pub unwind_indents : ℤ → Scanner → Scanner
unfolding unwind
unwind_indents column s = if in_flow s then s else unwind (suc (length s.indent_stack)) column s

-- `self.reader.column() as i32 != self.current_indent`
abbrev pub is_column : ℕ → ℤ → Bool
is_column column (pos n) = column == n
is_column column (negsuc n) = false

unfoldable pub close_seq_if_non_entry : Scanner → Scanner
unfolding close_level
close_seq_if_non_entry s =
    if not s.current_is_seq || in_flow s
    then s
    else if not (is_column s.reader.pos.column s.current_indent)
    then s
    else if peek s.reader == b'-'
        && (check_next_is_blank s.reader || check_next_is_break_or_eof s.reader)
    then s
    else close_level s

abbrev pub ends_node : Option ℕ → Bool
ends_node none = true
ends_node (some c) = is_break c || (c == b'#' || c == b':')

unfoldable pub check_no_block_trailing : Scanner → Scan Scanner
check_no_block_trailing s =
    if in_flow s
    then ok s
    else if ends_node (peek_after_blanks s.reader)
    then ok s
    else err content_after_node s.reader.pos

abbrev pub is_none : Option SimpleKey → Bool
is_none none = true
is_none (some k) = false

unfoldable pub note_possible_simple_key : Span → Scanner → Scanner
note_possible_simple_key span s =
    if not (in_flow s) && (s.simple_key_allowed && is_none s.simple_key)
    then record s {
      simple_key = some (record {
        index = length s.tokens;
        column = span.column;
        line = span.line;
        had_tab = s.tab_before_token;
      });
    }
    else s
