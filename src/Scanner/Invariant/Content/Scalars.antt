-- ===== src/Scanner/Invariant/Content/Scalars.antt =====
-- The tokens of scalars keep the invariant, and take a character.
use yamlrocks.Common.{
  none, ℕ, ◌≤◌, ◌<◌, Bool, true, false, not, ◌&&◌, ◌||◌, Bool-cases, List, ltb, ◌==◌, ◌≡◌, refl,
  inl, inr, arith, if◌then◌else◌,
}
use yamlrocks.Resolver.Kind.{ScalarStyle, plain, single_quoted, double_quoted}
use yamlrocks.Scanner.CharClass.{is_whitespace_or_break, is_flow_indicator}
use yamlrocks.Scanner.Reader.{Span, Reader, peek, advance}
use yamlrocks.Scanner.Runs.{peek_next, skip_space_run}
use yamlrocks.Scanner.Outcome.{map}
use yamlrocks.Scanner.Quoted.{Cow, none_or}
use yamlrocks.Scanner.Quoted.Within.{left}
use yamlrocks.Scanner.Quoted.Single.{scan_single_quoted}
use yamlrocks.Scanner.Quoted.Single.Total.{scan_single_quoted-advance}
use yamlrocks.Scanner.Quoted.Double.{scan_double_quoted}
use yamlrocks.Scanner.Quoted.Double.Total.{scan_double_quoted-advance}
use yamlrocks.Scanner.Block.{scan_block}
use yamlrocks.Scanner.Block.Total.{scan_block-advance}
use yamlrocks.Scanner.Plain.{scan_plain, ends_plain, start_state}
use yamlrocks.Scanner.Plain.Total.{scan_plain-lowers}
use yamlrocks.Scanner.Token.{Token, block_mapping_start, key, value, token}
use yamlrocks.Scanner.State.{Scanner, push_back, in_flow}
use yamlrocks.Scanner.Fetch.Indent.{check_no_block_trailing}
use yamlrocks.Scanner.Fetch.Trivia.{on_line}
use yamlrocks.Scanner.Fetch.Flow.{opened}
use yamlrocks.Scanner.Fetch.Content.{
  check_value_after_scalar, roll_key, push_key_value, push_quoted_value, finish_quoted_scalar,
  fetch_single_quoted_scalar, fetch_double_quoted_scalar, push_block_scalar_token,
  fetch_block_scalar, plain_key, plain_value, finish_plain_scalar, fetch_plain_scalar,
  indicates_value, scalar_token, is_plain_key, quoted_parent_indent,
}
use yamlrocks.Scanner.Invariant.Live.{core, IsNeutral, Live}
use yamlrocks.Scanner.Invariant.Live.Keep.{Live-push, Live-drop, Live-on_line}
use yamlrocks.Scanner.Invariant.Reaches.{
  Reaches, Reaches-map, Reaches-bind, Reaches-if, Reaches-guard, Reaches-weaken, Within-Reaches,
}
use yamlrocks.Scanner.Invariant.Indent.{
  Kept, Rolled, roll_indent-Rolled, check_no_block_trailing-Kept,
}
use yamlrocks.Scanner.Invariant.Entry.{Good}
use yamlrocks.Scanner.Invariant.Sizes.{
  advance-lowers, left-advance, left-skip_space, left-skip_space_run,
}

roll_key-Kept :
    (e : List Token) (had_tab : Bool) (span : Span) (s : Scanner)
    → Live e (core s)
    → Reaches (Kept e s) (roll_key had_tab span s)
unfolding roll_key
roll_key-Kept e had_tab span s h =
    Reaches-if (Kept e s) (in_flow s) _ _ (λ f. (h, refl, refl))
      (λ f. Reaches-guard (Kept e s) had_tab _ _ _ (λ t.
        Reaches-weaken (Rolled e s) (Kept e s) _ (λ s' k. k.0)
          (roll_indent-Rolled e span.column span block_mapping_start s (inl refl) h)))

push_key_value-Good :
    (e : List Token) (n : ℕ) (cow : Cow) (style : ScalarStyle) (span : Span) (content_end : ℕ)
    (s : Scanner)
    → Live e (core s)
    → left s.reader < n
    → Good e n (push_key_value (scalar_token cow style span content_end) s)
unfolding push_key_value
push_key_value-Good e n cow style span content_end s h l =
    let a = left-advance s.reader in
    let b = left-skip_space (advance s.reader) in
    let t : Token = scalar_token cow style span content_end in
    let k : Token = token (key false) span in
    (
      Live-push e (token value s.reader.pos) (push_back t (push_back k s)) (refl, λ a. refl)
          (Live-push e t (push_back k s) (refl, λ a. refl) (Live-push e k s (refl, λ a. refl) h)),
      omega arith,
    )

left-check_value : (s : Scanner) → left (check_value_after_scalar s).1 ≤ left s.reader
unfolding check_value_after_scalar
left-check_value s =
    let r = skip_space_run s.reader in
    let a = left-skip_space_run s.reader in
    elim (Bool-cases (peek r == b':' && indicates_value (in_flow s) (peek_next r))) [
      | inl h ↦ rw (h) a
      | inr h ↦ rw (h) (omega arith)
    ]

-- A key in front of its `:`.
key-Good :
    (e : List Token) (n : ℕ) (had_tab : Bool) (cow : Cow) (style : ScalarStyle) (span : Span)
    (content_end : ℕ) (s : Scanner)
    → Good e n s
    → Reaches
        (Good e n)
        (map (push_key_value (scalar_token cow style span content_end)) (roll_key had_tab span s))
key-Good e n had_tab cow style span content_end s (h, l) =
    Reaches-map (Kept e s) (Good e n) (push_key_value (scalar_token cow style span content_end))
      (roll_key had_tab span s)
      (λ s' k. push_key_value-Good e n cow style span content_end s' k.0 (rw (k.1) l))
      (roll_key-Kept e had_tab span s h)

finish_quoted-Good :
    (e : List Token) (n : ℕ) (style : ScalarStyle) (span : Span) (allowed had_tab : Bool)
    (s : Scanner) (cow : Cow) (r : Reader)
    → Live e (core s)
    → left r < n
    → Reaches (Good e n) (finish_quoted_scalar style span allowed had_tab s (cow, r))
unfolding finish_quoted_scalar push_quoted_value
finish_quoted-Good e n style span allowed had_tab s cow r h l =
    let t : Token = scalar_token cow style span r.pos.offset in
    let read : Scanner = record s { reader = r; simple_key_allowed = false } in
    let colon = (check_value_after_scalar read).1 in
    let c = left-check_value read in
    Reaches-if (Good e n)
      (allowed && (not (in_flow s && s.flow_explicit_key) && (check_value_after_scalar read).0)) _ _
      (λ a. Reaches-guard (Good e n) (not (in_flow s) && not (span.line == r.pos.line)) _ _ _ (λ b.
        key-Good e n had_tab cow style span r.pos.offset (record read { reader = colon })
          (h, omega arith)))
      (λ a.
        Reaches-map (λ s'. s' ≡ read) (Good e n) (push_quoted_value t)
          (check_no_block_trailing read) (λ s' q. rw (q) (Live-push e t s (refl, λ a. refl) h, l))
          (check_no_block_trailing-Kept e read h))

pub fetch_single_quoted-Good :
    (e : List Token) (s : Scanner)
    → Live e (core s)
    → 0 < left s.reader
    → Reaches (Good e (left s.reader)) (fetch_single_quoted_scalar s)
unfolding fetch_single_quoted_scalar
fetch_single_quoted-Good e s h z =
    let n : ℕ = left s.reader in
    let scanned = scan_single_quoted (quoted_parent_indent s) s.reader in
    Reaches-bind (λ p. left p.1 < n) (Good e n) scanned _
      (λ p l.
        finish_quoted-Good e n single_quoted s.reader.pos s.simple_key_allowed s.tab_before_token s
          p.0 p.1 h l)
      (Within-Reaches (left (advance s.reader)) n scanned (advance-lowers s.reader z)
        (scan_single_quoted-advance (quoted_parent_indent s) s.reader))

pub fetch_double_quoted-Good :
    (e : List Token) (s : Scanner)
    → Live e (core s)
    → 0 < left s.reader
    → Reaches (Good e (left s.reader)) (fetch_double_quoted_scalar s)
unfolding fetch_double_quoted_scalar
fetch_double_quoted-Good e s h z =
    let n : ℕ = left s.reader in
    let scanned = scan_double_quoted (quoted_parent_indent s) s.reader in
    Reaches-bind (λ p. left p.1 < n) (Good e n) scanned _
      (λ p l.
        finish_quoted-Good e n double_quoted s.reader.pos s.simple_key_allowed s.tab_before_token s
          p.0 p.1 h l)
      (Within-Reaches (left (advance s.reader)) n scanned (advance-lowers s.reader z)
        (scan_double_quoted-advance (quoted_parent_indent s) s.reader))

pub fetch_block_scalar-Good :
    (e : List Token) (literal : Bool) (s : Scanner)
    → Live e (core s)
    → 0 < left s.reader
    → Reaches (Good e (left s.reader)) (fetch_block_scalar literal s)
unfolding fetch_block_scalar push_block_scalar_token
fetch_block_scalar-Good e literal s h z =
    let a = advance-lowers s.reader z in
    Reaches-map (λ p. left p.1 ≤ left (advance s.reader)) (Good e (left s.reader)) _
      (scan_block s.source literal s.current_indent s.reader)
      (λ p l. (
        Live-push e _ (record s { simple_key = none }) (refl, λ a. refl) (Live-drop e s h),
        omega arith,
      ))
      (scan_block-advance s.source literal s.current_indent s.reader)

read-Live :
    (e : List Token) (line : ℕ) (b : Bool) (s : Scanner)
    → Live e (core s)
    → Live e
        (core (record s { simple_key = if b then s.simple_key else on_line line s.simple_key }))
read-Live e line true s h = h
read-Live e line false s h = Live-on_line e line s h

plain_key-Good :
    (e : List Token) (n : ℕ) (crossed had_tab : Bool) (cow : Cow) (span : Span) (content_end : ℕ)
    (s : Scanner)
    → Good e n s
    → Reaches (Good e n) (plain_key crossed had_tab (scalar_token cow plain span content_end) s)
unfolding plain_key
plain_key-Good e n crossed had_tab cow span content_end s g =
    Reaches-guard (Good e n) (not (in_flow s) && crossed) _ _ _ (λ a.
      Reaches-guard (Good e n)
        (in_flow s
          && (not s.flow_explicit_key
              && (opened false s.flow_kinds && not (s.reader.pos.line == span.line))))
        _ _ _ (λ b. key-Good e n had_tab cow plain span content_end s g))

plain_value-Good :
    (e : List Token) (n : ℕ) (pending crossed : Bool) (t : Token)
    → IsNeutral t.kind
    → (s : Scanner) → Good e n s
    → Reaches (Good e n) (plain_value pending crossed t s)
unfolding plain_value
plain_value-Good e n pending crossed t i s (h, l) =
    Reaches-guard (Good e n)
      (in_flow s
        && (not pending
            && (crossed
                && (peek s.reader == b':'
                    && none_or (λ c. is_whitespace_or_break c || is_flow_indicator c)
                        (peek_next s.reader)))))
      _ _ _ (λ a. (Live-push e t s i h, l))

finish_plain-Good :
    (e : List Token) (n : ℕ) (s : Scanner) (cow : Cow) (content_end : ℕ) (r : Reader)
    → Live e (core s)
    → left r < n
    → Reaches (Good e n) (finish_plain_scalar s ((cow, content_end), r))
unfolding finish_plain_scalar
finish_plain-Good e n s cow content_end r h l =
    let crossed = ltb s.reader.pos.line r.pos.line in
    let live = read-Live e r.pos.line (in_flow s) s h in
    Reaches-if (Good e n) (is_plain_key s r) _ _
      (λ k. plain_key-Good e n crossed s.tab_before_token cow s.reader.pos content_end _ (live, l))
      (λ k.
        plain_value-Good e n (in_flow s && s.flow_explicit_key) crossed
          (scalar_token cow plain s.reader.pos content_end) (refl, λ a. refl) _ (live, l))

-- In front of a plain scalar.
pub fetch_plain_scalar-Good :
    (e : List Token) (s : Scanner)
    → Live e (core s)
    → ends_plain s.reader.pos.offset (in_flow s) (peek s.reader) (start_state s.reader) ≡ false
    → Reaches (Good e (left s.reader)) (fetch_plain_scalar s)
unfolding fetch_plain_scalar
fetch_plain_scalar-Good e s h b =
    Reaches-bind (λ p. left p.1 < left s.reader) (Good e (left s.reader))
      (scan_plain (in_flow s) s.current_indent s.reader) (finish_plain_scalar s)
      (λ p l. finish_plain-Good e (left s.reader) s p.0.0 p.0.1 p.1 h l)
      (scan_plain-lowers (in_flow s) s.current_indent s.reader b)
