-- ===== src/Scanner/Invariant/Entry/Keys.antt =====
-- Entries, keys and values keep the invariant, and take a character.
use yamlrocks.Common.{
  ℕ, ◌<◌, Bool, true, false, not, ◌&&◌, Option, none, some, [], List, is_empty, ◌==◌, ◌≡◌, refl, ap,
  inl, inr, arith,
}
use yamlrocks.Common.Int.{pos, less}
use yamlrocks.Scanner.Reader.{Span, peek, advance}
use yamlrocks.Scanner.Quoted.Within.{left}
use yamlrocks.Scanner.Token.{Token, block_mapping_start, block_sequence_start, key, value, token}
use yamlrocks.Scanner.State.{Scanner, SimpleKey, in_flow}
use yamlrocks.Scanner.Fetch.Indent.{roll_indent}
use yamlrocks.Scanner.Fetch.Trivia.{on_line}
use yamlrocks.Scanner.Fetch.Entry.{
  take_entry, fetch_block_entry, take_key, fetch_key, value_key, open_value, take_value,
  fetch_value,
}
use yamlrocks.Scanner.Invariant.Live.{core, Live, KeyAt, KeyAt-on_line, in_flow-none}
use yamlrocks.Scanner.Invariant.Live.Keep.{Live-push, Live-block_entry, Live-drop}
use yamlrocks.Scanner.Invariant.Reaches.{
  Reaches, Reaches-map, Reaches-bind, Reaches-weaken, Reaches-if, Reaches-guard,
}
use yamlrocks.Scanner.Invariant.Indent.{Kept, Rolled, roll_indent-Rolled}
use yamlrocks.Scanner.Invariant.Insert.{insert_key-Live}
use yamlrocks.Scanner.Invariant.Sizes.{skip_space-advance}
use yamlrocks.Scanner.Invariant.Entry.{Good}

take_entry-Good :
    (e : List Token) (span : Span) (n : ℕ) (s : Scanner)
    → Live e (core s)
    → left s.reader ≡ n
    → 0 < n
    → s.flow_kinds ≡ []
    → is_empty s.indent_stack ≡ false
    → Good e n (take_entry span s)
unfolding take_entry
take_entry-Good e span n s h l z f i = (
  Live-block_entry e span s f i h,
  let a = skip_space-advance s.reader (omega arith) in omega arith,
)

pub fetch_block_entry-Good :
    (e : List Token) (after_entry : Bool) (s : Scanner)
    → Live e (core s)
    → 0 < left s.reader
    → in_flow s ≡ false
    → Reaches (Good e (left s.reader)) (fetch_block_entry after_entry s)
unfolding fetch_block_entry
fetch_block_entry-Good e after_entry s h z f =
    let span = s.reader.pos in
    let Q = Good e (left s.reader) in
    Reaches-guard Q s.tab_before_token _ _ _ (λ a.
      Reaches-guard Q (span.line == s.value_indicator_line) _ _ _ (λ b.
        Reaches-guard Q (span.line == s.property_line) _ _ _ (λ c.
          Reaches-guard Q
            (less s.current_indent (pos span.column)
              && (s.current_is_seq && (not after_entry && s.unwound_block_level)))
            _ _ _
            (λ d.
              Reaches-map (Rolled e s) Q (take_entry span) _
                (λ s' k.
                  let ((live, l, level), nonempty) = k in
                  take_entry-Good e span (left s.reader) s' live l z
                    (in_flow-none e s' live (rw (level) f)) (nonempty f))
                (roll_indent-Rolled e span.column span block_sequence_start s (inr refl) h)))))

take_key-Good :
    (e : List Token) (span : Span) (n : ℕ) (s : Scanner)
    → Live e (core s)
    → left s.reader ≡ n
    → 0 < n
    → Reaches (Good e n) (take_key span s)
unfolding take_key
take_key-Good e span n s h l z =
    Reaches-guard (Good e n) (not (in_flow s) && peek (advance s.reader) == b'\t') _ _ _ (λ a.
      let b = skip_space-advance s.reader (omega arith) in
      (Live-push e (token (key true) span) s (refl, λ a. refl) h, omega arith))

pub fetch_key-Good :
    (e : List Token) (s : Scanner)
    → Live e (core s)
    → 0 < left s.reader
    → Reaches (Good e (left s.reader)) (fetch_key s)
unfolding fetch_key
fetch_key-Good e s h z =
    let Q = Good e (left s.reader) in
    Reaches-guard Q (not (in_flow s) && s.tab_before_token) _ _ _ (λ a.
      Reaches-bind (Rolled e s) Q
        (roll_indent s.reader.pos.column s.reader.pos block_mapping_start s) (take_key s.reader.pos)
        (λ s' k. take_key-Good e s.reader.pos (left s.reader) s' k.0.0 k.0.1 z)
        (roll_indent-Rolled e s.reader.pos.column s.reader.pos block_mapping_start s (inl refl) h))

value_key-Kept :
    (e : List Token) (span : Span) (k : Option SimpleKey) (s : Scanner)
    → in_flow s ≡ false
    → KeyAt e s.tokens k
    → s.simple_key ≡ none
    → Live e (core s)
    → Reaches (Kept e s) (value_key span k s)
unfolding value_key
value_key-Kept e span none s f a q h =
    Reaches-weaken (Rolled e s) (Kept e s) _ (λ s' k. k.0)
      (roll_indent-Rolled e span.column span block_mapping_start s (inl refl) h)
value_key-Kept e span (some k) s f a q h = Reaches-guard (Kept e s) k.had_tab _ _ _ (λ t.
    Reaches-weaken _ (Kept e s) _ (λ s' g. (g.0, ap left g.1, g.2))
      (insert_key-Live e k (record span { line = k.line; column = k.column }) s
        (in_flow-none e s h f) a q h))

open_value-Kept :
    (e : List Token) (s : Scanner) → Live e (core s) → Reaches (Kept e s) (open_value s)
unfolding open_value
open_value-Kept e s h =
    Reaches-if (Kept e s) (in_flow s) _ _ (λ f. (h, refl, refl))
      (λ f.
        value_key-Kept e s.reader.pos (on_line s.reader.pos.line s.simple_key)
          (record s { simple_key = none }) f
          (KeyAt-on_line e s.tokens s.reader.pos.line s.simple_key h.key) refl (Live-drop e s h))

-- From a scanner that keeps the invariant, by which a simple key stands in front of a buffered token or
-- at the end of the queue, and that has a character left, `fetch_value` gives an error, or takes a
-- character and keeps the invariant: what it inserts in front of the key nests with the tokens there,
-- and is never inserted behind the end of the queue, where the code would panic.
pub fetch_value-Good :
    (e : List Token) (s : Scanner)
    → Live e (core s)
    → 0 < left s.reader
    → Reaches (Good e (left s.reader)) (fetch_value s)
unfolding fetch_value take_value
fetch_value-Good e s h z =
    Reaches-map (Kept e s) (Good e (left s.reader)) (take_value s.reader.pos) (open_value s)
      (λ s' k.
        let (live, l, _) = k in
        let a = skip_space-advance s'.reader (omega arith) in
        (Live-push e (token value s.reader.pos) s' (refl, λ a. refl) live, omega arith))
      (open_value-Kept e s h)
