-- ===== src/Scanner/Runs.antt =====
-- The runs of plain scalars and of whole lines (src/scanner/reader.rs).
use yamlrocks.Common.{
  ℕ, zero, suc, ◌+◌, Bool, true, false, not, all, Bool-cases, Option, none, some, [], ◌∷◌, ◌++◌,
  Text, length, ◌==◌, if◌then◌else◌, ◌≡◌, inl, inr, refl, ap,
}
use yamlrocks.Scanner.CharClass.{is_break, plain_stop_table, plain_line_stop_table}
use yamlrocks.Scanner.Reader.{Span, Reader, past, past_text, take_run, advance}
use yamlrocks.Scanner.Quoted.{skip_while, trim_trailing_blanks}

unfoldable pub take_plain_run : Bool → Reader → Text × Reader
take_plain_run in_flow r = take_run (plain_stop_table in_flow) r.rest r.pos

-- The run, and the offset behind its last character that is no blank. Every character of a run is
-- one byte wide.
unfoldable pub take_plain_line_run : Bool → Reader → (Text × ℕ) × Reader
take_plain_line_run in_flow r =
    let (run, behind) = take_run (plain_line_stop_table in_flow) r.rest r.pos in
    ((run, r.pos.offset + length (trim_trailing_blanks run)), behind)

unfoldable pub take_until_line_break : Reader → Text × Reader
take_until_line_break r = take_run is_break r.rest r.pos

-- `peek_at`, `None` behind the end
abbrev pub char_at : ℕ → Text → Option ℕ
char_at n [] = none
char_at zero (c ∷ cs) = some c
char_at (suc n) (c ∷ cs) = char_at n cs

abbrev pub peek_next : Reader → Option ℕ
peek_next r = char_at 1 r.rest

unfoldable pub check_next_is_break_or_eof : Reader → Bool
check_next_is_break_or_eof r = break_or_eof (peek_next r)
  where
    break_or_eof : Option ℕ → Bool
    break_or_eof none = true
    break_or_eof (some c) = is_break c

unfoldable pub check_next_is_blank : Reader → Bool
check_next_is_blank r = blank (peek_next r)
  where
    blank : Option ℕ → Bool
    blank none = false
    blank (some c) = if c == b' ' then true else c == b'\t'

-- `Reader::skip_spaces`
unfoldable pub skip_space_run : Reader → Reader
skip_space_run r = skip_while (λ c. c == b' ') r.rest r.pos

unfoldable pub advance_n : ℕ → Reader → Reader
advance_n zero r = r
advance_n (suc n) r = advance_n n (advance r)

-- What stands behind a run: nothing, or a character that stops it.
abbrev pub Stopped : (ℕ → Bool) → Text → Type 0
Stopped stop [] = Unit
Stopped stop (c ∷ cs) = stop c ≡ true

-- A run of any kind is the part of the text in front of the first character that stops it: no
-- character of the run stops it, what is left is empty or starts with one that does, the two make up
-- the text, and the reader stands behind the characters of the run.
pub take_run-append :
    (stop : ℕ → Bool) (text : Text) (s : Span)
    → ((take_run stop text s).0 ++ (take_run stop text s).1.rest ≡ text)
      × ((take_run stop text s).1.pos ≡ past_text (take_run stop text s).0 s)
      × Stopped stop (take_run stop text s).1.rest
      × (all (λ c. not (stop c)) (take_run stop text s).0 ≡ true)
unfolding take_run
take_run-append stop [] s = (refl, refl, tt, refl)
take_run-append stop (c ∷ cs) s =
    let (a, b, d, n) = take_run-append stop cs (past c s) in
    elim (Bool-cases (stop c)) [
      | inl h ↦ rw (h) (refl, refl, h, refl)
      | inr h ↦ rw (h) (ap (λ t. c ∷ t) a, b, d, rw (h) n)
    ]
