-- ===== src/Scanner/CharClass.antt =====
-- Character classes (src/scanner/char_traits.rs).
use yamlrocks.Common.{ℕ, Bool, true, false, not, ◌&&◌, ◌||◌, leb, ◌==◌, if◌then◌else◌}

unfoldable pub is_break : ℕ → Bool
is_break ch = ch == b'\n' || ch == b'\r'

unfoldable pub is_whitespace_or_break : ℕ → Bool
is_whitespace_or_break ch = ch == b' ' || ch == b'\t' || ch == b'\n' || ch == b'\r'

unfoldable pub is_flow_indicator : ℕ → Bool
is_flow_indicator ch = ch == b',' || ch == b'[' || ch == b']' || ch == b'{' || ch == b'}'

unfoldable pub is_whitespace_or_flow : ℕ → Bool
unfolding is_whitespace_or_break is_flow_indicator
is_whitespace_or_flow ch = is_whitespace_or_break ch || is_flow_indicator ch

unfoldable pub is_anchor_char : ℕ → Bool
unfolding is_whitespace_or_flow
is_anchor_char ch = not (is_whitespace_or_flow ch || ch == 0)

unfoldable pub is_blank_byte : ℕ → Bool
is_blank_byte b = b == b' ' || b == b'\t'

-- A table is the function of its index: `table[i] = v` is tested before what was there.
unfoldable pub plain_stop_table : Bool → ℕ → Bool
plain_stop_table in_flow b =
    if in_flow && (b == b',' || b == b'[' || b == b']' || b == b'{' || b == b'}')
    then true
    else if b == b'\n' || b == b'\r' || b == b':' || b == b'#' || b == b' ' || b == b'\t'
    then true
    else leb 0x80 b

unfoldable pub plain_line_stop_table : Bool → ℕ → Bool
unfolding plain_stop_table
plain_line_stop_table in_flow b =
    if b == b' ' || b == b'\t' then false else plain_stop_table in_flow b
