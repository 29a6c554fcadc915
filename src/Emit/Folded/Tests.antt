-- ===== src/Emit/Folded/Tests.antt =====
-- Folding at concrete bodies.
use yamlrocks.Common.{◌++◌, codes, ◌≡◌, refl, arith}
use yamlrocks.Emit.Folded.{push_folded, push_pieces, cut, current_column}
use yamlrocks.Emit.Folded.Wide.{push_folded-wide}

folded :
    push_folded (codes "k: ") (codes "one two  three four") 2 10
    ≡ codes "k: one\n  two  three\n  four"
unfolding push_folded push_pieces cut current_column
folded = refl

fits : current_column (codes "a\nk: ") ≡ 3
unfolding current_column
fits = refl

push_folded-wide_example :
    push_folded (codes "a\nk: ") (codes "one two") 2 80 ≡ codes "a\nk: " ++ codes "one two"
push_folded-wide_example =
    push_folded-wide (codes "a\nk: ") (codes "one two") 2 80 (rw (fits) (omega arith))
