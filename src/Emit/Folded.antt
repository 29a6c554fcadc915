-- ===== src/Emit/Folded.antt =====
-- Folding of an escaped quoted body (src/emit_util.rs). The code looks for the next breakable space
-- from an index; here the content is cut at all of them first.
mod Tests
pub mod Wide
use yamlrocks.Common.{
  ℕ, ◌+◌, Bool, true, false, not, ◌&&◌, ◌||◌, Option, none, some, List, [], ◌∷◌, ◌++◌, reverse,
  Text, replicate, length, ltb, ◌==◌, if◌then◌else◌,
}

abbrev since_break : Text → ℕ
since_break [] = 0
since_break (c ∷ cs) = let n = since_break cs in if c == b'\n' then 0 else n + 1

-- The bytes behind the last line break
unfoldable pub current_column : Text → ℕ
current_column buf = since_break (reverse buf)

-- `bytes.get(i + 1).is_some_and(|&b| b != b' ')`
abbrev content_follows : Text → Bool
content_follows [] = false
content_follows (c ∷ _) = not (c == b' ')

abbrev content_before : Option ℕ → Bool
content_before none = false
content_before (some c) = not (c == b' ')

-- `breakable`, for the byte `c` between `prev` and `rest`
abbrev pub breakable : Option ℕ → ℕ → Text → Bool
breakable prev c rest = c == b' ' && (content_before prev && content_follows rest)

abbrev pub into_first : ℕ → Text × List Text → Text × List Text
into_first c (p, ps) = (c ∷ p, ps)

abbrev pub apart : Text × List Text → Text × List Text
apart (p, ps) = ([], p ∷ ps)

-- The content cut at its breakable spaces, which are left out: the first piece, and the others
unfoldable pub cut : Option ℕ → Text → Text × List Text
cut prev [] = ([], [])
cut prev (c ∷ rest) =
    let later = cut (some c) rest in
    if breakable prev c rest then apart later else into_first c later

-- The loop behind a piece that ends at column `col`
unfoldable pub push_pieces : Text → ℕ → ℕ → ℕ → List Text → Text
push_pieces buf col cont_indent width [] = buf
push_pieces buf col cont_indent width (p ∷ ps) =
    let folded =
      push_pieces (buf ++ (b'\n' ∷ replicate cont_indent b' ') ++ p) (cont_indent + length p)
        cont_indent width ps in
    let spaced = push_pieces (buf ++ (b' ' ∷ p)) (col + 1 + length p) cont_indent width ps in
    if ltb width (col + 1 + length p) then folded else spaced

unfoldable pub push_folded : Text → Text → ℕ → ℕ → Text
push_folded buf content cont_indent width =
    let (first, others) = cut none content in
    push_pieces (buf ++ first) (current_column buf + length first) cont_indent width others
