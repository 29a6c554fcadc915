-- ===== src/Emit/Folded/Wide.antt =====
-- Content that fits is not folded (src/emit_util.rs).
use yamlrocks.Common.{
  ℕ, ◌+◌, ◌≤◌, true, false, Bool-cases, Option, none, some, List, [], ◌∷◌, ◌++◌, append-nil,
  append_assoc, Text, length, length-append, ltb, ◌≡◌, inl, inr, refl, sym, ap, ◌∙◌, arith,
}
use yamlrocks.Emit.Folded.{breakable, cut, push_pieces, push_folded, current_column}

-- The pieces with a space in front of each
abbrev spaced : List Text → Text
spaced [] = []
spaced (p ∷ ps) = b' ' ∷ (p ++ spaced ps)

abbrev joined : Text × List Text → Text
joined (p, ps) = p ++ spaced ps

breakable_space : (prev : Option ℕ) (c : ℕ) (rest : Text) → breakable prev c rest ≡ true → c ≡ b' '
breakable_space prev c rest h = ground arith

joined-cut : (prev : Option ℕ) (content : Text) → joined (cut prev content) ≡ content
unfolding cut
joined-cut prev [] = refl
joined-cut prev (c ∷ rest) = elim (Bool-cases (breakable prev c rest)) [
  | inl h ↦ rw (h) (
      ap (λ t. b' ' ∷ t) (joined-cut (some c) rest)
      ∙ ap (λ k. k ∷ rest) (sym (breakable_space prev c rest h)))
  | inr h ↦ rw (h) (ap (λ t. c ∷ t) (joined-cut (some c) rest))
]

not-ltb : (a b : ℕ) → b ≤ a → ltb a b ≡ false
not-ltb a b h = ground arith

push_pieces-wide :
    (buf : Text) (col cont_indent width : ℕ) (ps : List Text)
    → col + length (spaced ps) ≤ width
    → push_pieces buf col cont_indent width ps ≡ buf ++ spaced ps
unfolding push_pieces
push_pieces-wide buf col cont_indent width [] h = sym (append-nil buf)
push_pieces-wide buf col cont_indent width (p ∷ ps) h =
    let l = length-append p (spaced ps) in
    rw (not-ltb width (col + 1 + length p) (omega arith)) (
      push_pieces-wide (buf ++ b' ' ∷ p) (col + 1 + length p) cont_indent width ps (omega arith)
      ∙ append_assoc buf (b' ' ∷ p) (spaced ps))

-- A body that fits the width behind the current column is written as it is.
pub push_folded-wide :
    (buf content : Text) (cont_indent width : ℕ)
    → current_column buf + length content ≤ width
    → push_folded buf content cont_indent width ≡ buf ++ content
unfolding push_folded
push_folded-wide buf content cont_indent width h =
    let e = joined-cut none content in
    let l = length-append (cut none content).0 (spaced (cut none content).1) in
    let k : length (joined (cut none content)) ≡ length content = ap length e in
    push_pieces-wide (buf ++ (cut none content).0)
      (current_column buf + length (cut none content).0) cont_indent width (cut none content).1
      (omega arith)
    ∙ append_assoc buf (cut none content).0 (spaced (cut none content).1)
    ∙ ap (λ t. buf ++ t) e
