-- ===== src/Json.antt =====
-- The strings of the JSON writer (src/encode/json.rs).
pub mod Strings
mod Tests
use yamlrocks.Common.{ℕ, [], ◌∷◌, ◌++◌, Text, codes, ltb, ◌==◌, if◌then◌else◌}
use yamlrocks.Emit.Scalar.{escaped, hex_4}

-- What `write_string` writes for one character.
unfoldable pub escape : ℕ → Text
escape c =
    if c == b'"'
    then escaped b'"'
    else if c == b'\\'
    then escaped b'\\'
    else if c == b'\n'
    then escaped b'n'
    else if c == b'\r'
    then escaped b'r'
    else if c == b'\t'
    then escaped b't'
    else if c == 0x08
    then escaped b'b'
    else if c == 0x0c
    then escaped b'f'
    else if ltb c 0x20
    then b'\\' ∷ b'u' ∷ hex_4 c
    else if c == 0x2028
    then codes "\\u2028"
    else if c == 0x2029
    then codes "\\u2029"
    else c ∷ []

unfoldable pub string_body : Text → Text
unfolding escape
string_body [] = []
string_body (c ∷ cs) = escape c ++ string_body cs

unfoldable pub write_string : Text → Text → Text
unfolding string_body
write_string out value = out ++ (b'"' ∷ (string_body value ++ b'"' ∷ []))
