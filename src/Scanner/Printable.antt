-- ===== src/Scanner/Printable.antt =====
-- The check of a whole input for characters that YAML does not print (`Reader::check_printable`,
-- src/scanner/reader.rs): a scan of bytes, here of those behind a byte order mark. The error that it
-- gives is told by the offset of the offending byte.
pub mod Bytes
pub mod Mirror
use yamlrocks.Common.{
  ℕ, ◌+◌, ◌/◌, ◌%◌, Bool, true, false, not, ◌&&◌, ◌||◌, Option, none, some, [], ◌∷◌, ◌++◌, Text,
  ltb, between, ◌==◌, if◌then◌else◌,
}

-- `char::encode_utf8`
unfoldable pub encode : ℕ → Text
encode c =
    if ltb c 0x80
    then c ∷ []
    else if ltb c 0x800
    then (0xc0 + c / 64) ∷ (0x80 + c % 64) ∷ []
    else if ltb c 0x10000
    then (0xe0 + c / 4096) ∷ (0x80 + c / 64 % 64) ∷ (0x80 + c % 64) ∷ []
    else (0xf0 + c / 262144) ∷ (0x80 + c / 4096 % 64) ∷ (0x80 + c / 64 % 64) ∷ (0x80 + c % 64) ∷ []

-- The bytes of a text
unfoldable pub as_bytes : Text → Text
as_bytes [] = []
as_bytes (c ∷ cs) = encode c ++ as_bytes cs

-- `b == 0xc2 && i + 1 < bytes.len()` and its block
abbrev pub bad_c1 : Text → Bool
bad_c1 [] = false
bad_c1 (n ∷ _) = between 0x80 0x9f n && not (n == 0x85)

-- `b == 0xef && i + 2 < bytes.len()` and its block
abbrev pub bad_non_character : Text → Bool
bad_non_character (n ∷ m ∷ _) = n == 0xbf && (m == 0xbe || m == 0xbf)
bad_non_character _ = false

-- `bad` for the byte `b` in front of `rest`, with the fast path as its first test
unfoldable pub is_bad : ℕ → Text → Bool
is_bad b rest =
    if between 0x20 0x7e b
    then false
    else if ltb b 0x20
    then not (b == b'\t') && (not (b == b'\n') && not (b == b'\r'))
    else if b == 0x7f
    then true
    else if b == 0xc2
    then bad_c1 rest
    else if b == 0xef
    then bad_non_character rest
    else false

-- The loop at offset `i`: the offset of the byte that the error names.
unfoldable pub check_printable : ℕ → Text → Option ℕ
check_printable i [] = none
check_printable i (b ∷ rest) =
    let later = check_printable (i + 1) rest in if is_bad b rest then some i else later
