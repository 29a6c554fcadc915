-- ===== src/Scanner/Invariant/Content.antt =====
-- Anchors, aliases, tags and scalars keep the invariant, and take a character.
pub mod Scalars
use yamlrocks.Common.{
  none, ℕ, zero, suc, ◌≤◌, ◌<◌, Bool, true, false, not, ◌&&◌, ◌||◌, Bool-cases, [], ◌∷◌, Text, List,
  length, is_empty, ltb, ◌==◌, ◌≡◌, refl, sym, subst, inl, inr, arith, if◌then◌else◌,
}
use yamlrocks.Resolver.Kind.{ScalarStyle, plain, single_quoted, double_quoted}
use yamlrocks.Scanner.CharClass.{is_anchor_char, is_whitespace_or_break, is_flow_indicator}
use yamlrocks.Scanner.Reader.{Span, Reader, peek, advance, take_run}
use yamlrocks.Scanner.Runs.{peek_next, skip_space_run}
use yamlrocks.Scanner.Outcome.{Scan, ok, err, map, Within}
use yamlrocks.Scanner.Quoted.{Cow, none_or, at_most}
use yamlrocks.Scanner.Quoted.Within.{left, left-take_run}
use yamlrocks.Scanner.Quoted.Single.{scan_single_quoted}
use yamlrocks.Scanner.Quoted.Single.Total.{scan_single_quoted-advance}
use yamlrocks.Scanner.Quoted.Double.{scan_double_quoted}
use yamlrocks.Scanner.Quoted.Double.Total.{scan_double_quoted-advance}
use yamlrocks.Scanner.Block.{scan_block}
use yamlrocks.Scanner.Block.Total.{scan_block-advance}
use yamlrocks.Scanner.Plain.{scan_plain, ends_plain, start_state}
use yamlrocks.Scanner.Plain.Total.{scan_plain-lowers}
use yamlrocks.Scanner.Token.{Token, block_mapping_start, key, value, scalar, anchor, alias, token}
use yamlrocks.Scanner.State.{Scanner, push_back, in_flow}
use yamlrocks.Scanner.Fetch.Indent.{roll_indent, check_no_block_trailing, note_possible_simple_key}
use yamlrocks.Scanner.Fetch.Trivia.{on_line}
use yamlrocks.Scanner.Fetch.Flow.{opened}
use yamlrocks.Scanner.Fetch.Property.{
  check_property_value_indent, take_name, take_anchor, fetch_anchor, fetch_alias, take_suffix,
  ends_tag, take_verbatim, scan_tag, push_tag, take_tag, fetch_tag, owe_separator,
}
use yamlrocks.Scanner.Fetch.Content.{
  check_value_after_scalar, roll_key, push_key_value, push_quoted_value, finish_quoted_scalar,
  fetch_single_quoted_scalar, fetch_double_quoted_scalar, push_block_scalar_token,
  fetch_block_scalar, plain_key, plain_value, finish_plain_scalar, fetch_plain_scalar,
  indicates_value, scalar_token, is_plain_key, quoted_parent_indent,
}
use yamlrocks.Scanner.Invariant.Live.{core, IsNeutral, Live}
use yamlrocks.Scanner.Invariant.Live.Keep.{Live-push, Live-note, Live-drop, Live-on_line}
use yamlrocks.Scanner.Invariant.Reaches.{
  Reaches, Reaches-map, Reaches-bind, Reaches-if, Reaches-guard, Reaches-weaken, Within-Reaches,
}
use yamlrocks.Scanner.Invariant.Indent.{
  Kept, Rolled, roll_indent-Rolled, check_no_block_trailing-Kept,
}
use yamlrocks.Scanner.Invariant.Entry.{Good}
use yamlrocks.Scanner.Invariant.Sizes.{
  advance-lowers, left-advance, left-skip_space, left-skip_space_run,
}

check_property-same : (s : Scanner) → Reaches (λ s'. s' ≡ s) (check_property_value_indent s)
unfolding check_property_value_indent
check_property-same s =
    Reaches-guard (λ s'. s' ≡ s)
      (not (in_flow s) && (s.block_value_pending && at_most s.reader.pos.column s.current_indent)) _
      _ _ (λ a. refl)

take_anchor-Good :
    (e : List Token) (s : Scanner)
    → Live e (core s)
    → 0 < left s.reader
    → Reaches (Good e (left s.reader)) (take_anchor s)
unfolding take_anchor
take_anchor-Good e s h z =
    let a = advance-lowers s.reader z in
    let b =
      left-take_run (λ c. not (is_anchor_char c)) (advance s.reader).rest (advance s.reader).pos in
    Reaches-guard (Good e (left s.reader)) (is_empty (take_name (advance s.reader)).0) _ _ _ (λ n. (
      Live-push e _ (note_possible_simple_key s.reader.pos s) (refl, λ a. refl)
          (Live-note e s.reader.pos s h),
      omega arith,
    ))

pub fetch_anchor-Good :
    (e : List Token) (s : Scanner)
    → Live e (core s)
    → 0 < left s.reader
    → Reaches (Good e (left s.reader)) (fetch_anchor s)
unfolding fetch_anchor
fetch_anchor-Good e s h z =
    Reaches-bind (λ s'. s' ≡ s) (Good e (left s.reader)) (check_property_value_indent s) take_anchor
      (λ s' q. rw (q) (take_anchor-Good e s h z)) (check_property-same s)

pub fetch_alias-Good :
    (e : List Token) (s : Scanner)
    → Live e (core s)
    → 0 < left s.reader
    → Reaches (Good e (left s.reader)) (fetch_alias s)
unfolding fetch_alias
fetch_alias-Good e s h z =
    let a = advance-lowers s.reader z in
    let b =
      left-take_run (λ c. not (is_anchor_char c)) (advance s.reader).rest (advance s.reader).pos in
    Reaches-guard (Good e (left s.reader)) (is_empty (take_name (advance s.reader)).0) _ _ _ (λ n. (
      Live-push e _ (note_possible_simple_key s.reader.pos s) (refl, λ a. refl)
          (Live-note e s.reader.pos s h),
      omega arith,
    ))

take_suffix-left :
    (bangs : Text) (r : Reader)
    → Reaches (λ (p : Text × Reader). left p.1 ≤ left r) (take_suffix bangs r)
unfolding take_suffix
take_suffix-left bangs r = left-take_run ends_tag r.rest r.pos

take_verbatim-left :
    (span : Span) (r : Reader)
    → Reaches (λ (p : Text × Reader). left p.1 ≤ left r) (take_verbatim span r)
unfolding take_verbatim
take_verbatim-left span r =
    let stop : ℕ → Bool = λ c. c == b'>' || is_whitespace_or_break c in
    let (inner, behind) = take_run stop r.rest r.pos in
    let b = left-take_run stop r.rest r.pos in
    let a = left-advance behind in
    let P : Text × Reader → Type 0 = λ p. left p.1 ≤ left r in
    Reaches-guard P (not (peek behind == b'>')) _ _ _
      (λ c. Reaches-guard P (is_empty inner) _ _ _ (λ d. omega arith))

scan_tag-lowers :
    (r : Reader) → 0 < left r → Reaches (λ (p : Text × Reader). left p.1 < left r) (scan_tag r)
unfolding scan_tag
scan_tag-lowers r z =
    let P : Text × Reader → Type 0 = λ p. left p.1 < left r in
    let a = advance-lowers r z in
    let b = left-advance (advance r) in
    Reaches-if P (peek (advance r) == b'!') _ _
      (λ h.
        Reaches-weaken (λ p. left p.1 ≤ left (advance (advance r))) P
          (take_suffix (b'!' ∷ b'!' ∷ []) (advance (advance r))) (λ p l. omega arith)
          (take_suffix-left (b'!' ∷ b'!' ∷ []) (advance (advance r))))
      (λ h.
        Reaches-if P (peek (advance r) == b'<') _ _
          (λ k.
            Reaches-weaken (λ p. left p.1 ≤ left (advance (advance r))) P
              (take_verbatim r.pos (advance (advance r))) (λ p l. omega arith)
              (take_verbatim-left r.pos (advance (advance r))))
          (λ k.
            Reaches-weaken (λ p. left p.1 ≤ left (advance r)) P
              (take_suffix (b'!' ∷ []) (advance r)) (λ p l. omega arith)
              (take_suffix-left (b'!' ∷ []) (advance r))))

take_tag-Good :
    (e : List Token) (s : Scanner)
    → Live e (core s)
    → 0 < left s.reader
    → Reaches (Good e (left s.reader)) (take_tag s)
unfolding take_tag push_tag
take_tag-Good e s h z =
    Reaches-map (λ p. left p.1 < left s.reader) (Good e (left s.reader)) (push_tag s)
      (scan_tag s.reader)
      (λ p l. (
        Live-push e _ (note_possible_simple_key s.reader.pos s) (refl, λ a. refl)
            (Live-note e s.reader.pos s h),
        l,
      ))
      (scan_tag-lowers s.reader z)

pub fetch_tag-Good :
    (e : List Token) (s : Scanner)
    → Live e (core s)
    → 0 < left s.reader
    → Reaches (Good e (left s.reader)) (fetch_tag s)
unfolding fetch_tag
fetch_tag-Good e s h z =
    Reaches-bind (λ s'. s' ≡ s) (Good e (left s.reader)) (check_property_value_indent s) take_tag
      (λ s' q. rw (q) (take_tag-Good e s h z)) (check_property-same s)
