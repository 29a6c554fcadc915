-- ===== src/Scanner/Block.antt =====
-- Block scalars (`scan_block` in src/scanner/scalar.rs): the header, the detection of the
-- indentation, and the lines of the content.
pub mod Total
pub mod Opening
pub mod Lines
use yamlrocks.Common.{
  ℕ, suc, ◌+◌, ◌-◌, Bool, true, false, not, ◌&&◌, ◌||◌, Option, none, some, [], ◌++◌, ◌∷◌, Text,
  length, replicate, is_empty, ltb, leb, between, ◌==◌, if◌then◌else◌, max,
}
use yamlrocks.Common.Int.{ℤ, pos, negsuc}
use yamlrocks.Scanner.CharClass.{is_break, is_blank_byte}
use yamlrocks.Scanner.Reader.{
  Span, Reader, past, is_eof, peek, advance, advance_line, take_run, peek_after_blanks,
}
use yamlrocks.Scanner.Runs.{take_until_line_break}
use yamlrocks.Scanner.Source.{Source, prev_is_whitespace_or_start}
use yamlrocks.Scanner.Outcome.{
  comment_needs_whitespace, content_after_block_indicator, leading_empty_line, tab_indent, Scan, ok,
  err, stuck, Step, done, more, iterate, map, ◌>>=◌,
}
use yamlrocks.Scanner.Quoted.{Cow, owned, none_or, at_document_marker, skip_spaces, at_most}

-- `Chomping`
pub data Chomping : Type 0 where
  strip clip keep : Chomping

-- `chomping`, `seen_chomping` and `explicit_indent`
pub record Header : Type 0 where
  pub chomping : Chomping
  pub seen_chomping : Bool
  pub explicit_indent : Option ℕ
  pub reader : Reader

abbrev pub is_none {ℓ} : {A : Type ℓ} → Option A → Bool
is_none none = true
is_none (some a) = false

unfoldable pub indicator_step : Header → Step Header Header
indicator_step h =
    let ch = peek h.reader in
    let behind = advance h.reader in
    if is_eof h.reader
    then done (ok h)
    else if ch == b'-' && not h.seen_chomping
    then more (record h { chomping = strip; seen_chomping = true; reader = behind })
    else if ch == b'+' && not h.seen_chomping
    then more (record h { chomping = keep; seen_chomping = true; reader = behind })
    else if between b'1' b'9' ch && is_none h.explicit_indent
    then more (record h { explicit_indent = some (ch - b'0'); reader = behind })
    else done (ok h)

-- The rest of the header line.
unfoldable pub header_rest_step : Source → Reader → Step Reader Reader
header_rest_step src r =
    let ch = peek r in
    if is_eof r
    then done (ok r)
    else if ch == b' ' || ch == b'\t'
    then more (advance r)
    else if ch == b'#' && prev_is_whitespace_or_start src r
    then done (ok (take_run is_break r.rest r.pos).1)
    else if is_break ch
    then done (ok r)
    else if ch == b'#'
    then done (err comment_needs_whitespace r.pos)
    else done (err content_after_block_indicator r.pos)

-- The loop that detects the indentation: the deepest leading empty line so far.
unfoldable pub detect_step : ℕ × Reader → Step (ℕ × Reader) (ℕ × ℕ)
detect_step (deepest, r) =
    let (run, behind) = take_run (λ c. not (c == b' ')) r.rest r.pos in
    let spaces : ℕ = length run in
    if is_eof r
    then done (ok (0, deepest))
    else if is_eof behind
    then more (max deepest spaces, behind)
    else if is_break (peek behind)
    then more (max deepest spaces, advance_line behind)
    else done (ok (spaces, deepest))

-- `while reader.column() < indent && reader.peek() == ' ' { reader.advance(); }`
abbrev pub skip_below : ℕ → Text → Span → Reader
skip_below indent [] s = record { rest = []; pos = s }
skip_below indent (c ∷ cs) s =
    let r = skip_below indent cs (past c s) in
    if ltb s.column indent && c == b' ' then r else record { rest = c ∷ cs; pos = s }

unfoldable pub breaks_step : ℕ → ℕ × Reader → Step (ℕ × Reader) (ℕ × Reader)
breaks_step indent (breaks, r) =
    let behind = advance_line r in
    if is_eof r
    then done (ok (breaks, r))
    else if is_break (peek r)
    then more (breaks + 1, skip_below indent behind.rest behind.pos)
    else done (ok (breaks, r))

unfoldable pub scan_block_breaks : Reader → ℕ → Scan (ℕ × Reader)
scan_block_breaks r indent =
    iterate (breaks_step indent) (suc (length r.rest)) (0, skip_below indent r.rest r.pos)

unfoldable pub empty_line_step : ℕ × Reader → Step (ℕ × Reader) (ℕ × Reader)
empty_line_step (feeds, r) =
    let behind = skip_spaces r in
    if is_eof r
    then done (ok (feeds, r))
    else if not (none_or is_break (peek_after_blanks r))
    then done (ok (feeds, r))
    else if peek behind == b'\t'
    then done (err tab_indent behind.pos)
    else if is_eof behind
    then done (ok (feeds + 1, behind))
    else more (feeds + 1, advance_line behind)

abbrev kept : Chomping → ℕ → Text
kept keep feeds = replicate feeds b'\n'
kept _ feeds = []

unfoldable pub scan_empty_block : Reader → Chomping → Scan (Text × Reader)
scan_empty_block r chomping = do
  (feeds, r') ← iterate empty_line_step (suc (length r.rest)) (0, r)
  ok (kept chomping feeds, r')

-- `value`, `breaks` and `trailing`
pub record Content : Type 0 where
  pub value : Text
  pub breaks : ℕ
  pub trailing : ℕ
  pub reader : Reader

unfoldable pub in_block : ℕ → Reader → Bool
in_block indent r = r.pos.column == indent && (not (is_eof r) && not (at_document_marker r))

-- What a break becomes in front of another line of the block.
unfoldable pub joint : Bool → Bool → Bool → ℕ → Reader → Text
joint literal had_break leading_non_space breaks r =
    if not literal && (had_break && (leading_non_space && not (is_blank_byte (peek r))))
    then if breaks == 0 then b' ' ∷ [] else []
    else b'\n' ∷ []

-- Behind the break of a content line and the empty lines that follow.
unfoldable pub after_line :
    Bool → ℕ → Bool → Bool → Text → ℕ → Scan (ℕ × Reader) → Step Content ((Text × ℕ) × Reader)
after_line literal indent had_break leading_non_space value trailing (ok (breaks, r)) =
    if in_block indent r
    then more (record {
      value = value ++ joint literal had_break leading_non_space breaks r;
      breaks = breaks;
      trailing = trailing;
      reader = r;
    })
    else done (ok ((value, (if had_break then 1 else 0) + breaks), r))
after_line literal indent had_break leading_non_space value trailing (err m s) = done (err m s)
after_line literal indent had_break leading_non_space value trailing stuck = done stuck

unfoldable pub content_step : Bool → ℕ → Content → Step Content ((Text × ℕ) × Reader)
content_step literal indent st =
    let (line, r) = take_until_line_break st.reader in
    let had_break : Bool = not (is_eof r) in
    let behind : Reader = if had_break then advance_line r else r in
    if in_block indent st.reader
    then after_line literal indent had_break (not (is_blank_byte (peek st.reader)))
        ((st.value ++ replicate st.breaks b'\n') ++ line) st.trailing
        (scan_block_breaks behind indent)
    else done (ok ((st.value, st.trailing), st.reader))

abbrev pub chomped : Chomping → Text → ℕ → Text
chomped strip value trailing = value
chomped clip value trailing = if is_empty value then value else value ++ b'\n' ∷ []
chomped keep value trailing = value ++ replicate trailing b'\n'

unfoldable pub scan_content : Bool → Chomping → ℕ → Reader → Scan (Cow × Reader)
scan_content literal chomping indent r = do
  (breaks, r1) ← scan_block_breaks r indent
  ((value, trailing), r2) ←
      iterate (content_step literal indent) (suc (length r1.rest))
        (record { value = []; breaks = breaks; trailing = breaks; reader = r1 })
  ok (owned (chomped chomping value trailing), r2)

-- `parent_indent.max(0) as u32`
abbrev pub max_zero : ℤ → ℕ
max_zero (pos n) = n
max_zero (negsuc n) = 0

unfoldable pub scan_body : Bool → Chomping → Option ℕ → ℤ → Span → Reader → Scan (Cow × Reader)
scan_body literal chomping (some explicit) parent start r =
    scan_content literal chomping (max_zero parent + explicit) r
scan_body literal chomping none parent start r = do
  (detected, deepest) ← iterate detect_step (suc (length r.rest)) (0, r)
  if at_most detected parent
      then map (λ p. (owned p.0, p.1)) (scan_empty_block r chomping)
      else if ltb detected deepest
      then err leading_empty_line start
      else scan_content literal chomping detected r

abbrev pub new_header : Reader → Header
new_header r = record { chomping = clip; seen_chomping = false; explicit_indent = none; reader = r }

unfoldable pub scan_block : Source → Bool → ℤ → Reader → Scan (Cow × Reader)
scan_block src literal parent r = do
  h ← iterate indicator_step (suc (length r.rest)) (new_header (advance r))
  r1 ← iterate (header_rest_step src) (suc (length r.rest)) h.reader
  let r2 : Reader = if is_break (peek r1) then advance_line r1 else r1
  scan_body literal h.chomping h.explicit_indent parent r.pos r2
