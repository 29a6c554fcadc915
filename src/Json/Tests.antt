-- ===== src/Json/Tests.antt =====
-- The strings of the JSON writer at concrete texts.
use yamlrocks.Common.{[], ◌∷◌, ◌++◌, Text, codes, all, true, ◌≡◌}
use yamlrocks.Json.{write_string}
use yamlrocks.Json.Strings.{JsonBody, is_script_safe, write_string-JsonBody, write_string-safe}

-- With a quote, a bell and a line separator
abbrev odd_text : Text
odd_text = codes "a\"b\n" ++ 7 ∷ 0x2028 ∷ 0x1f600 ∷ []

write_string-JsonBody_example :
    (body : Text) × (write_string (codes "[") odd_text ≡ codes "[" ++ (b'"' ∷ (body ++ b'"' ∷ [])))
    × JsonBody body odd_text
write_string-JsonBody_example = write_string-JsonBody (codes "[") odd_text

write_string-safe_example :
    (tail : Text) × (write_string (codes "[") odd_text ≡ codes "[" ++ tail)
    × (all is_script_safe tail ≡ true)
write_string-safe_example = write_string-safe (codes "[") odd_text
