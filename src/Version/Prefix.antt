-- ===== src/Version/Prefix.antt =====
-- Which line decides the version (src/version.rs).
use yamlrocks.Common.{
  ℕ, ◌^◌, ◌-◌, ◌≤◌, false, Bool-cases, Option, none, some, List, [], ◌∷◌, ◌++◌, Text, codes,
  text_eq, all-cons, contains, starts_with, ◌==◌, ◌≡◌, refl, ap, ◌∙◌, inl, inr,
}
use yamlrocks.Common.Whitespace.{is_whitespace}
use yamlrocks.Common.Trim.{IsBlank, trim_start-blank, trim_start-append, trim_start-cons}
use yamlrocks.Common.Digits.{IsNumeral}
use yamlrocks.Version.{
  next_line, decided, pieces, nonempty, before_comment, version_word, directive, trimmed_line,
  line_verdict, version_of_lines,
}
use yamlrocks.Version.Words.{
  IsWord, EndsWord, later, pieces-append, nonempty-blank, version-IsWord, numeral-no_hash,
  parse_version-append, parse_version-none,
}

-- A line in front of a version directive: a blank one, a comment, or another directive.
pub data IsNoise : Text → Type 0 where
  blank : (ws : Text) → IsBlank ws → IsNoise ws
  comment : (ws text : Text) → IsBlank ws → IsNoise (ws ++ b'#' ∷ text)
  other :
      (ws : Text) (c : ℕ) (cs rest : Text)
      → IsBlank ws
      → IsWord (c ∷ cs)
      → EndsWord rest
      → text_eq (c ∷ cs) (codes "YAML") ≡ false
      → IsNoise (ws ++ b'%' ∷ (c ∷ cs ++ rest))

-- A line that ends the search, and the version that it gives: a line of content gives none, `%YAML` the
-- two numbers of the word behind it, or none when the word has no dot.
pub data Decides : Text → Option (ℕ × ℕ) → Type 0 where
  content :
      (ws : Text) (c : ℕ) (cs : Text)
      → IsBlank ws
      → is_whitespace c ≡ false
      → (c == b'%') ≡ false
      → (c == b'#') ≡ false
      → Decides (ws ++ c ∷ cs) none
  declared :
      (ws : Text) (w : ℕ) (gap major minor rest : Text) {a b : ℕ}
      → IsBlank ws
      → IsBlank (w ∷ gap)
      → IsNumeral 10 major a
      → IsNumeral 10 minor b
      → (a ≤ 2 ^ 32 - 1) × (b ≤ 2 ^ 32 - 1)
      → EndsWord rest
      → Decides
          (ws ++ b'%' ∷ (codes "YAML" ++ w ∷ (gap ++ ((major ++ b'.' ∷ minor) ++ rest))))
          (some (a, b))
  undotted :
      (ws : Text) (w : ℕ) (gap : Text) (c : ℕ) (cs rest : Text)
      → IsBlank ws
      → IsBlank (w ∷ gap)
      → IsWord (c ∷ cs)
      → contains (c ∷ cs) b'.' ≡ false
      → EndsWord rest
      → Decides (ws ++ b'%' ∷ (codes "YAML" ++ w ∷ (gap ++ (c ∷ cs ++ rest)))) none

abbrev pub AllNoise : List Text → Type 0
AllNoise [] = Unit
AllNoise (l ∷ ls) = IsNoise l × AllNoise ls

line_verdict-percent :
    (ws text : Text)
    → IsBlank ws
    → line_verdict (ws ++ b'%' ∷ text) ≡ directive (before_comment (nonempty (pieces text)))
unfolding line_verdict is_whitespace
line_verdict-percent ws text h = ap trimmed_line (trim_start-append ws (b'%' ∷ text) h)

line_verdict-hash : (ws text : Text) → IsBlank ws → line_verdict (ws ++ b'#' ∷ text) ≡ next_line
unfolding line_verdict is_whitespace
line_verdict-hash ws text h = ap trimmed_line (trim_start-append ws (b'#' ∷ text) h)

other-next_line :
    (c : ℕ) (cs rest : Text)
    → IsWord (c ∷ cs)
    → EndsWord rest
    → text_eq (c ∷ cs) (codes "YAML") ≡ false
    → directive (before_comment (nonempty (pieces (c ∷ cs ++ rest)))) ≡ next_line
other-next_line c cs rest w e n =
    ap (λ ps. directive (before_comment (nonempty ps))) (pieces-append (c ∷ cs) rest w e)
    ∙ elim (Bool-cases (starts_with (c ∷ cs) (codes "#"))) [
      | inl h ↦ rw (h) refl
      | inr h ↦ rw (h, n) refl
    ]

IsNoise-next_line : {l : Text} → IsNoise l → line_verdict l ≡ next_line
IsNoise-next_line (blank ws h) = unfold line_verdict in ap trimmed_line (trim_start-blank ws h)
IsNoise-next_line (comment ws text h) = line_verdict-hash ws text h
IsNoise-next_line (other ws c cs rest h w e n) =
    line_verdict-percent ws (c ∷ cs ++ rest) h ∙ other-next_line c cs rest w e n

-- What stands behind `%YAML` and a space
yaml-directive :
    (w : ℕ) (gap text : Text)
    → IsBlank (w ∷ gap)
    → directive (before_comment (nonempty (pieces (codes "YAML" ++ w ∷ (gap ++ text)))))
      ≡ decided (version_word (before_comment (nonempty (pieces text))))
unfolding is_whitespace
yaml-directive w gap text h =
    let (first, others) = all-cons is_whitespace w gap h in
    ap (λ ps. directive (before_comment (nonempty ps)))
      (pieces-append (codes "YAML") (w ∷ (gap ++ text)) refl first)
    ∙ ap (λ ps. decided (version_word (before_comment ps))) (nonempty-blank gap text others)

word-version :
    (c : ℕ) (cs rest : Text)
    → IsWord (c ∷ cs)
    → EndsWord rest
    → nonempty (pieces (c ∷ cs ++ rest)) ≡ (c ∷ cs) ∷ nonempty (later rest)
word-version c cs rest w e = ap nonempty (pieces-append (c ∷ cs) rest w e)

Decides-decided : {l : Text} {v : Option (ℕ × ℕ)} → Decides l v → line_verdict l ≡ decided v
Decides-decided (content ws c cs h k p n) =
    unfold line_verdict in
    ap trimmed_line (trim_start-append ws (c ∷ cs) h ∙ trim_start-cons c cs k) ∙ rw (p, n) refl
Decides-decided (declared ws w gap [] minor rest h g i j l e) = absurd (i.0 refl)
Decides-decided (declared ws w gap (c ∷ cs) minor rest h g i j l e) =
    line_verdict-percent ws _ h
    ∙ (yaml-directive w gap _ g
        ∙ ap decided (
            ap (λ ps. version_word (before_comment ps))
              (word-version c (cs ++ b'.' ∷ minor) rest (version-IsWord (c ∷ cs) minor i j) e)
            ∙ (rw (numeral-no_hash (c ∷ cs) (b'.' ∷ minor) i)
                (parse_version-append (c ∷ cs) minor i j l.0 l.1))))
Decides-decided (undotted ws w gap c cs rest h g k n e) =
    line_verdict-percent ws _ h
    ∙ (yaml-directive w gap _ g
        ∙ ap decided (
            ap (λ ps. version_word (before_comment ps)) (word-version c cs rest k e)
            ∙ elim (Bool-cases (starts_with (c ∷ cs) (codes "#"))) [
              | inl s ↦ rw (s) refl
              | inr s ↦ rw (s) (parse_version-none (c ∷ cs) n)
            ]))

-- Behind blank lines, comments and other directives, the first line that decides ends the search,
-- whatever follows: a `%YAML` directive with two numerals below 2^32 and a dot between them gives these
-- numbers, one whose word has no dot gives none, and so does a line of content.
pub version_of_lines-append :
    (noise : List Text) (line : Text) (rest : List Text) (version : Option (ℕ × ℕ))
    → AllNoise noise
    → Decides line version
    → version_of_lines (noise ++ line ∷ rest) ≡ version
unfolding version_of_lines
version_of_lines-append [] line rest version p h = rw (Decides-decided h) refl
version_of_lines-append (l ∷ ls) line rest version (q, p) h =
    rw (IsNoise-next_line q) (version_of_lines-append ls line rest version p h)
