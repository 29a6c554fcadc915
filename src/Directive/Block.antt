-- ===== src/Directive/Block.antt =====
-- The leading comment block (src/schema/directive.rs).
use yamlrocks.Common.{
  ℕ, ◌>>=◌, false, Option, none, some, List, [], ◌∷◌, ◌++◌, Text, codes, starts_with, strip_prefix,
  ◌==◌, ◌≡◌, refl, ap, ◌∙◌,
}
use yamlrocks.Common.Whitespace.{is_whitespace, trim_start, trim}
use yamlrocks.Common.Trim.{
  IsBlank, trim_start-blank, trim_start-append, trim_start-cons, strip_prefix-none,
}
use yamlrocks.Directive.{
  nonempty_value, found, trimmed_line, next_line, ends, parse_directive, line_verdict,
  schema_of_lines,
}

abbrev pub directive_key : Text
directive_key = codes "yaml-language-server:"

abbrev pub schema_key : Text
schema_key = codes "$schema="

-- A line of the leading block that names no schema: a blank one, or a comment that does not start with
-- the key, does not go on with `$schema=`, or has nothing behind that.
pub data IsLeading : Text → Type 0 where
  blank : (ws : Text) → IsBlank ws → IsLeading ws
  other :
      (ws comment : Text)
      → IsBlank ws
      → starts_with (trim_start comment) directive_key ≡ false
      → IsLeading (ws ++ b'#' ∷ comment)
  unnamed :
      (ws gap rest : Text)
      → IsBlank ws
      → IsBlank gap
      → starts_with (trim_start rest) schema_key ≡ false
      → IsLeading (ws ++ b'#' ∷ (gap ++ (directive_key ++ rest)))
  empty :
      (ws gap gap' value : Text)
      → IsBlank ws
      → IsBlank gap
      → IsBlank gap'
      → trim value ≡ []
      → IsLeading (ws ++ b'#' ∷ (gap ++ (directive_key ++ (gap' ++ (schema_key ++ value)))))

-- A line that ends the scan, and what the scan then gives: content gives nothing, a directive its value
-- without the white space around it.
pub data EndsScan : Text → Option Text → Type 0 where
  content :
      (ws : Text) (c : ℕ) (cs : Text)
      → IsBlank ws
      → is_whitespace c ≡ false
      → (c == b'#') ≡ false
      → EndsScan (ws ++ c ∷ cs) none
  directive :
      (ws gap gap' value : Text) (c : ℕ) (cs : Text)
      → IsBlank ws
      → IsBlank gap
      → IsBlank gap'
      → trim value ≡ c ∷ cs
      → EndsScan
          (ws ++ b'#' ∷ (gap ++ (directive_key ++ (gap' ++ (schema_key ++ value)))))
          (some (c ∷ cs))

abbrev pub AllLeading : List Text → Type 0
AllLeading [] = Unit
AllLeading (l ∷ ls) = IsLeading l × AllLeading ls

-- A line that starts with `#` behind white space
line_verdict-comment :
    (ws comment : Text)
    → IsBlank ws
    → line_verdict (ws ++ b'#' ∷ comment) ≡ found (parse_directive comment)
unfolding line_verdict is_whitespace
line_verdict-comment ws comment h = ap trimmed_line (trim_start-append ws (b'#' ∷ comment) h)

-- The parts of `parse_directive`, by the text that is left
abbrev behind_key : Text → Option Text
behind_key t = strip_prefix t schema_key >>= λ value. nonempty_value (trim value)

abbrev behind_hash : Text → Option Text
behind_hash t = strip_prefix t directive_key >>= λ rest. behind_key (trim_start rest)

parse_directive-key :
    (gap rest : Text)
    → IsBlank gap
    → parse_directive (gap ++ (directive_key ++ rest)) ≡ behind_key (trim_start rest)
unfolding parse_directive is_whitespace
parse_directive-key gap rest g = ap behind_hash (trim_start-append gap (directive_key ++ rest) g)

parse_directive-unnamed :
    (gap rest : Text)
    → IsBlank gap
    → starts_with (trim_start rest) schema_key ≡ false
    → parse_directive (gap ++ (directive_key ++ rest)) ≡ none
parse_directive-unnamed gap rest g h =
    parse_directive-key gap rest g ∙ rw (strip_prefix-none (trim_start rest) schema_key h) refl

parse_directive-value :
    (gap gap' value : Text)
    → IsBlank gap
    → IsBlank gap'
    → parse_directive (gap ++ (directive_key ++ (gap' ++ (schema_key ++ value))))
      ≡ nonempty_value (trim value)
unfolding is_whitespace
parse_directive-value gap gap' value g g' =
    parse_directive-key gap (gap' ++ (schema_key ++ value)) g
    ∙ ap behind_key (trim_start-append gap' (schema_key ++ value) g')

IsLeading-next_line : {l : Text} → IsLeading l → line_verdict l ≡ next_line
IsLeading-next_line (blank l h) = unfold line_verdict in ap trimmed_line (trim_start-blank l h)
IsLeading-next_line (other ws comment h k) =
    line_verdict-comment ws comment h
    ∙ unfold parse_directive in rw (strip_prefix-none (trim_start comment) directive_key k) refl
IsLeading-next_line (unnamed ws gap rest h g k) =
    line_verdict-comment ws (gap ++ (directive_key ++ rest)) h
    ∙ rw (parse_directive-unnamed gap rest g k) refl
IsLeading-next_line (empty ws gap gap' value h g g' k) =
    line_verdict-comment ws (gap ++ (directive_key ++ (gap' ++ (schema_key ++ value)))) h
    ∙ rw (parse_directive-value gap gap' value g g', k) refl

EndsScan-ends : {l : Text} {r : Option Text} → EndsScan l r → line_verdict l ≡ ends r
EndsScan-ends (content ws c cs h k n) =
    unfold line_verdict in
    ap trimmed_line (trim_start-append ws (c ∷ cs) h ∙ trim_start-cons c cs k) ∙ rw (n) refl
EndsScan-ends (directive ws gap gap' value c cs h g g' k) =
    line_verdict-comment ws (gap ++ (directive_key ++ (gap' ++ (schema_key ++ value)))) h
    ∙ rw (parse_directive-value gap gap' value g g', k) refl

-- Behind lines that are blank or comments without a schema, the first directive gives its reference,
-- and the first line of content gives none, whatever follows.
pub schema_of_lines-append :
    (block : List Text) (line : Text) (rest : List Text) (reference : Option Text)
    → AllLeading block
    → EndsScan line reference
    → schema_of_lines (block ++ line ∷ rest) ≡ reference
unfolding schema_of_lines
schema_of_lines-append [] line rest reference p h = rw (EndsScan-ends h) refl
schema_of_lines-append (l ∷ ls) line rest reference (q, p) h =
    rw (IsLeading-next_line q) (schema_of_lines-append ls line rest reference p h)
