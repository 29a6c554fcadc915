-- ===== src/Directive.antt =====
-- The comment that names the JSON Schema of a document (src/schema/directive.rs).
mod Tests
pub mod Block
use yamlrocks.Common.{
  Bool, true, false, Option, none, some, List, [], ◌∷◌, Text, codes, strip_prefix, ◌==◌,
  if◌then◌else◌, ◌>>=◌,
}
use yamlrocks.Common.Whitespace.{trim_start, trim, lines}

-- `None` for an empty value
abbrev nonempty_value : Text → Option Text
nonempty_value [] = none
nonempty_value (c ∷ cs) = some (c ∷ cs)

unfoldable pub parse_directive : Text → Option Text
parse_directive comment = do
  rest ← strip_prefix (trim_start comment) (codes "yaml-language-server:")
  value ← strip_prefix (trim_start rest) (codes "$schema=")
  nonempty_value (trim value)

-- What a line does to the scan: it goes on, or ends with a result.
pub data Verdict : Type 0 where
  next_line : Verdict
  ends : Option Text → Verdict

abbrev found : Option Text → Verdict
found none = next_line
found (some reference) = ends (some reference)

abbrev trimmed_line : Text → Verdict
trimmed_line [] = next_line
trimmed_line (c ∷ comment) = if c == b'#' then found (parse_directive comment) else ends none

unfoldable pub line_verdict : Text → Verdict
line_verdict raw_line = trimmed_line (trim_start raw_line)

abbrev pub decide : Verdict → Option Text → Option Text
decide next_line later = later
decide (ends r) later = r

unfoldable pub schema_of_lines : List Text → Option Text
schema_of_lines [] = none
schema_of_lines (l ∷ ls) = decide (line_verdict l) (schema_of_lines ls)

unfoldable pub schema_ref : Text → Option Text
schema_ref input = schema_of_lines (lines input)
