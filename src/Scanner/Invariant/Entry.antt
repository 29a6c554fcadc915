-- ===== src/Scanner/Invariant/Entry.antt =====
-- Documents, flow collections, entries, keys, values and properties keep the invariant, and take a
-- character.
pub mod Keys
use yamlrocks.Common.{
  ℕ, zero, suc, ◌+◌, ◌-◌, ◌≤◌, ◌<◌, Bool, true, false, not, ◌&&◌, ◌||◌, Bool-cases, false-ne-true,
  Option, none, some, Option-cases, [], ◌∷◌, List, is_empty, ltb, leb, ◌==◌, ◌≡◌, ◌⊎◌, refl, sym,
  ◌∙◌, ap, subst, inl, inr, arith, not-true, not-false,
}
use yamlrocks.Common.Int.{pos, negsuc, less}
use yamlrocks.Scanner.CharClass.{is_break}
use yamlrocks.Scanner.Reader.{Span, Reader, peek, advance, peek_after_blanks}
use yamlrocks.Scanner.Runs.{advance_n}
use yamlrocks.Scanner.Outcome.{Scan, ok, err}
use yamlrocks.Scanner.Quoted.{none_or}
use yamlrocks.Scanner.Quoted.Within.{left}
use yamlrocks.Scanner.Token.{
  Token, TokenKind, directive, block_mapping_start, block_sequence_start, document_start,
  document_end, key, value, token,
}
use yamlrocks.Scanner.State.{Scanner, SimpleKey, push_back, in_flow}
use yamlrocks.Scanner.Fetch.Indent.{
  roll_indent, unwind_indents, check_no_block_trailing, note_possible_simple_key, is_none,
}
use yamlrocks.Scanner.Fetch.Trivia.{on_line}
use yamlrocks.Scanner.Fetch.Document.{fetch_document_start, fetch_document_end, fetch_directive}
use yamlrocks.Scanner.Fetch.Flow.{
  max_flow_depth, note_outermost, fetch_flow_collection_start, opened, check_one_line, check_closed,
  followed_by_value_indicator, fetch_flow_collection_end, fetch_flow_entry,
}
use yamlrocks.Scanner.Fetch.Entry.{
  take_entry, fetch_block_entry, take_key, fetch_key, value_key, open_value, take_value,
  fetch_value,
}
use yamlrocks.Scanner.Invariant.Nesting.{Nest, after, is_inner}
use yamlrocks.Scanner.Invariant.Live.{core, Live, KeyAt, KeyAt-on_line, in_flow-none}
use yamlrocks.Scanner.Invariant.Live.Keep.{
  Live-push, Live-note, Live-flow_start, Live-flow_end, Live-flow_entry, Live-block_entry,
  Live-drop,
}
use yamlrocks.Scanner.Invariant.Reaches.{
  Reaches, Reaches-map, Reaches-bind, Reaches-weaken, Reaches-if, Reaches-guard,
}
use yamlrocks.Scanner.Invariant.Indent.{
  Kept, Rolled, roll_indent-Rolled, unwind_indents-Unwound, check_no_block_trailing-Kept,
  closed-Live,
}
use yamlrocks.Scanner.Invariant.Insert.{insert_key-Live}
use yamlrocks.Scanner.Invariant.Sizes.{
  advance-lowers, advance_n-lowers, skip_space-advance, left-skip_space, left-until_line_break,
}

-- A scanner that keeps the invariant, with fewer characters left than `n`
abbrev pub Good : List Token → ℕ → Scanner → Type 0
Good e n s = Live e (core s) × (left s.reader < n)

-- A scanner whose block collections are closed, in front of a token of no collection.
marked-Live :
    (e : List Token) (t : Token) (s : Scanner)
    → ((a : Nest) → after t.kind a ≡ some a)
    → is_inner t.kind ≡ true
    → in_flow s ≡ false
    → Live e (core s)
    → Live e
        (core (push_back t (record (unwind_indents (negsuc 0) s) { current_indent = negsuc 0 })))
marked-Live e t s a i f h =
    let (kept, _, l) = unwind_indents-Unwound e (negsuc 0) s refl f h in
    Live-push e t (record (unwind_indents (negsuc 0) s) { current_indent = negsuc 0 }) (i, a)
      (closed-Live e (unwind_indents (negsuc 0) s) l kept.0)

pub fetch_document_start-Good :
    (e : List Token) (s : Scanner)
    → Live e (core s)
    → 0 < left s.reader
    → in_flow s ≡ false
    → Reaches (Good e (left s.reader)) (fetch_document_start s)
unfolding fetch_document_start
fetch_document_start-Good e s h z f = (
  marked-Live e (token document_start s.reader.pos) s (λ a. refl) refl f h,
  advance_n-lowers 2 s.reader z,
)

pub fetch_document_end-Good :
    (e : List Token) (s : Scanner)
    → Live e (core s)
    → 0 < left s.reader
    → in_flow s ≡ false
    → Reaches (Good e (left s.reader)) (fetch_document_end s)
unfolding fetch_document_end
fetch_document_end-Good e s h z f =
    Reaches-if (Good e (left s.reader))
      (none_or (λ c. is_break c || c == b'#') (peek_after_blanks (advance_n 3 s.reader))) _ _
      (λ b. (
        marked-Live e (token document_end s.reader.pos) s (λ a. refl) refl f h,
        advance_n-lowers 2 s.reader z,
      ))
      (λ b. tt)

pub fetch_directive-Good :
    (e : List Token) (s : Scanner)
    → Live e (core s)
    → 0 < left s.reader
    → in_flow s ≡ false
    → Reaches (Good e (left s.reader)) (fetch_directive s)
unfolding fetch_directive
fetch_directive-Good e s h z f =
    Reaches-guard (Good e (left s.reader)) (not s.directives_allowed) _ _ _ (λ d.
      let (kept, _, l) = unwind_indents-Unwound e (negsuc 0) s refl f h in
      let a = advance-lowers s.reader z in
      let b = left-until_line_break (advance s.reader) in
      (Live-push e _ (unwind_indents (negsuc 0) s) (refl, λ a. refl) kept.0, omega arith))

pub fetch_flow_entry-Good :
    (e : List Token) (s : Scanner)
    → Live e (core s)
    → 0 < left s.reader
    → in_flow s ≡ true
    → Reaches (Good e (left s.reader)) (fetch_flow_entry s)
unfolding fetch_flow_entry
fetch_flow_entry-Good e s h z f =
    Reaches-guard (Good e (left s.reader)) (not s.flow_value_seen) _ _ _
      (λ v. (Live-flow_entry e s.reader.pos s f h, advance-lowers s.reader z))

pub note-Kept :
    (e : List Token) (span : Span) (s : Scanner)
    → Live e (core s)
    → Kept e s (note_possible_simple_key span s)
unfolding note_possible_simple_key
note-Kept e span s h =
    let noted = Live-note e span s h in
    elim (Bool-cases (not (in_flow s) && (s.simple_key_allowed && is_none s.simple_key))) [
      | inl b ↦ rw (b) (rw (b) at noted, refl, refl)
      | inr b ↦ rw (b) (h, refl, refl)
    ]

note_outermost-Kept : (e : List Token) (s : Scanner) → Live e (core s) → Kept e s (note_outermost s)
unfolding note_outermost
note_outermost-Kept e s h =
    let noted =
      note-Kept e s.reader.pos
        (record s { flow_start_line = s.reader.pos.line; flow_block_indent = s.current_indent })
        h in
    elim (Bool-cases (s.flow_level == 0)) [ inl z ↦ rw (z) noted | inr z ↦ rw (z) (h, refl, refl) ]

pub fetch_flow_collection_start-Good :
    (e : List Token) (mapping : Bool) (s : Scanner)
    → Live e (core s)
    → 0 < left s.reader
    → Reaches (Good e (left s.reader)) (fetch_flow_collection_start mapping s)
unfolding fetch_flow_collection_start
fetch_flow_collection_start-Good e mapping s h z =
    let (noted, _, level) = note_outermost-Kept e s h in
    Reaches-guard (Good e (left s.reader)) (leb max_flow_depth s.flow_level) _ _ _ (λ d. (
      Live-flow_start e mapping s.reader.pos (note_outermost s) (rw (level) d) noted,
      advance-lowers s.reader z,
    ))

check_closed-Good :
    (e : List Token) (n : ℕ) (span : Span) (s : Scanner)
    → Good e n s
    → Reaches (Good e n) (check_closed span s)
unfolding check_closed check_one_line
check_closed-Good e n span s g =
    Reaches-if (Good e n) (s.flow_level == 0) _ _
      (λ z.
        Reaches-bind (λ s'. s' ≡ s) (Good e n) (check_no_block_trailing s) (check_one_line span)
          (λ s' q.
            Reaches-guard (Good e n)
              (not (span.line == s'.flow_start_line) && followed_by_value_indicator s') _ _ _
              (λ c. subst (Good e n) (sym q) g))
          (check_no_block_trailing-Kept e s g.0))
      (λ z. g)

pub fetch_flow_collection_end-Good :
    (e : List Token) (mapping : Bool) (s : Scanner)
    → Live e (core s)
    → 0 < left s.reader
    → Reaches (Good e (left s.reader)) (fetch_flow_collection_end mapping s)
unfolding fetch_flow_collection_end
fetch_flow_collection_end-Good e mapping s h z =
    let Q = Good e (left s.reader) in
    Reaches-guard Q (s.flow_level == 0) _ _ _ (λ l.
      Reaches-guard Q (not (opened mapping s.flow_kinds)) _ _ _ (λ o.
        check_closed-Good e (left s.reader) s.reader.pos _ (
          Live-flow_end e mapping s.reader.pos s (not-false (opened mapping s.flow_kinds) o) h,
          advance-lowers s.reader z,
        )))
