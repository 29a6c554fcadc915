-- ===== src/Directive/Tests.antt =====
-- The schema directive at concrete texts.
use yamlrocks.Common.{none, some, List, [], ◌∷◌, ◌++◌, Text, codes, split, ◌≡◌, refl}
use yamlrocks.Common.Whitespace.{is_whitespace}
use yamlrocks.Directive.{line_verdict, parse_directive, schema_of_lines, schema_ref}
use yamlrocks.Directive.Block.{
  blank, other, directive, AllLeading, EndsScan, schema_of_lines-append,
}

abbrev block : List Text
block = [] ∷ codes "# a comment" ∷ []

abbrev schema_line : Text
schema_line = codes " # yaml-language-server: $schema=./a.json "

block-AllLeading : AllLeading block
unfolding is_whitespace
block-AllLeading = (blank [] refl, (other [] (codes " a comment") refl refl, tt))

schema_line-EndsScan : EndsScan schema_line (some (codes "./a.json"))
unfolding is_whitespace
schema_line-EndsScan =
    directive (codes " ") (codes " ") (codes " ") (codes "./a.json ") b'.' (codes "/a.json") refl
      refl refl refl

body-ignored : schema_ref (codes "a: 1\n# yaml-language-server: $schema=b\n") ≡ none
unfolding schema_ref schema_of_lines line_verdict is_whitespace parse_directive split
body-ignored = refl

schema_of_lines-append_example :
    schema_of_lines (block ++ schema_line ∷ codes "a: 1" ∷ []) ≡ some (codes "./a.json")
schema_of_lines-append_example =
    schema_of_lines-append block schema_line (codes "a: 1" ∷ []) (some (codes "./a.json"))
      block-AllLeading schema_line-EndsScan
