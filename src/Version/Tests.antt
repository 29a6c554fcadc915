-- ===== src/Version/Tests.antt =====
-- The version directive at concrete texts.
use yamlrocks.Common.{some, List, [], ◌∷◌, ◌++◌, Text, codes, split, ◌≡◌, refl, arith}
use yamlrocks.Common.Whitespace.{is_whitespace}
use yamlrocks.Common.Digits.{IsNumeral, to_digit, from_str_unsigned}
use yamlrocks.Version.{
  line_verdict, version_of_lines, leading_yaml_version, parse_version, parse_component,
  is_whitespace,
}
use yamlrocks.Version.Prefix.{
  blank, comment, other, declared, AllNoise, Decides, version_of_lines-append,
}

abbrev head_lines : List Text
head_lines = codes "# a comment" ∷ [] ∷ codes "%TAG ! tag:example.com," ∷ []

abbrev yaml_line : Text
yaml_line = codes "%YAML 1.1 # old"

head-AllNoise : AllNoise head_lines
unfolding is_whitespace
head-AllNoise = (
  comment [] (codes " a comment") refl,
  (
    blank [] refl,
    (other [] b'T' (codes "AG") (codes " ! tag:example.com,") refl refl refl refl, tt),
  ),
)

one-IsNumeral : IsNumeral 10 (codes "1") 1
unfolding to_digit
one-IsNumeral = (λ h. cc h, refl)

yaml_line-Decides : Decides yaml_line (some (1, 1))
unfolding is_whitespace
yaml_line-Decides =
    declared [] b' ' [] (codes "1") (codes "1") (codes " # old") refl refl one-IsNumeral
      one-IsNumeral (omega arith, omega arith) refl

whole-stream : leading_yaml_version (codes "\n%YAML 1.2\r\n---\na: b\n") ≡ some (1, 2)
unfolding leading_yaml_version version_of_lines split line_verdict is_whitespace parse_version
    parse_component to_digit from_str_unsigned
whole-stream = refl

version_of_lines-append_example :
    version_of_lines (head_lines ++ yaml_line ∷ codes "%YAML 1.2" ∷ []) ≡ some (1, 1)
version_of_lines-append_example =
    version_of_lines-append head_lines yaml_line (codes "%YAML 1.2" ∷ []) (some (1, 1))
      head-AllNoise yaml_line-Decides
