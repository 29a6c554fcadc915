-- ===== src/Version.antt =====
-- The version directive at the head of a stream (src/version.rs).
mod Tests
mod Words
pub mod Prefix
use yamlrocks.Common.{
  ℕ, ◌-◌, ◌^◌, Bool, true, false, not, ◌&&◌, ◌||◌, Option, none, some, List, [], ◌∷◌, ◌++◌, Text,
  codes, text_eq, starts_with, strip_prefix, split, is_empty, all, between, ◌==◌, if◌then◌else◌,
  ◌>>=◌, guard, ◌>>◌, reverse,
}
use yamlrocks.Common.Whitespace.{is_whitespace, trim_start, lines}
use yamlrocks.Common.Digits.{is_digit, from_str_unsigned}

-- The pieces between characters of white space, and those that are not empty: `split_whitespace`
abbrev pub pieces_step : ℕ → List Text → List Text
pieces_step c [] = (c ∷ []) ∷ []
pieces_step c (p ∷ ps) = (c ∷ p) ∷ ps

abbrev pub pieces : Text → List Text
pieces [] = [] ∷ []
pieces (c ∷ cs) =
    let later = pieces cs in if is_whitespace c then [] ∷ later else pieces_step c later

abbrev pub nonempty : List Text → List Text
nonempty [] = []
nonempty ([] ∷ ps) = nonempty ps
nonempty ((c ∷ cs) ∷ ps) = (c ∷ cs) ∷ nonempty ps

-- `take_while(|p| !p.starts_with('#'))`
abbrev pub before_comment : List Text → List Text
before_comment [] = []
before_comment (p ∷ ps) = if starts_with p (codes "#") then [] else p ∷ before_comment ps

unfoldable pub parse_component : Text → Option ℕ
parse_component component =
    if is_empty component || not (all is_digit component)
    then none
    else from_str_unsigned (2 ^ 32 - 1) component

-- `split_once('.')`
abbrev pub split_dot : Text → Option (Text × Text)
split_dot [] = none
split_dot (c ∷ cs) =
    if c == b'.' then some ([], cs) else do (major, minor) ← split_dot cs; some (c ∷ major, minor)

unfoldable pub parse_version : Text → Option (ℕ × ℕ)
parse_version text = do
  (major, minor) ← split_dot text
  a ← parse_component major
  b ← parse_component minor
  some (a, b)

-- `continue`, or the end of the search with its result
pub data Verdict : Type 0 where
  next_line : Verdict
  decided : Option (ℕ × ℕ) → Verdict

abbrev version_word : List Text → Option (ℕ × ℕ)
version_word [] = none
version_word (p ∷ ps) = parse_version p

abbrev directive : List Text → Verdict
directive [] = next_line
directive (name ∷ parts) =
    if text_eq name (codes "YAML") then decided (version_word parts) else next_line

abbrev trimmed_line : Text → Verdict
trimmed_line [] = next_line
trimmed_line (c ∷ cs) =
    if c == b'%'
    then directive (before_comment (nonempty (pieces cs)))
    else if c == b'#'
    then next_line
    else decided none

-- The body of the loop
unfoldable pub line_verdict : Text → Verdict
line_verdict raw = trimmed_line (trim_start raw)

abbrev pub decide : Verdict → Option (ℕ × ℕ) → Option (ℕ × ℕ)
decide next_line later = later
decide (decided r) later = r

unfoldable pub version_of_lines : List Text → Option (ℕ × ℕ)
version_of_lines [] = none
version_of_lines (l ∷ ls) = decide (line_verdict l) (version_of_lines ls)

abbrev without_bom : Text → Text
without_bom [] = []
without_bom (c ∷ cs) = if c == 0xfeff then cs else c ∷ cs

unfoldable pub leading_yaml_version : Text → Option (ℕ × ℕ)
leading_yaml_version input = version_of_lines (lines (without_bom input))

unfoldable pub selects_yaml_11 : ℕ × ℕ → Bool
selects_yaml_11 (major, minor) = major == 1 && minor == 1
