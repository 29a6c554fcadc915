-- ===== src/Scanner/Invariant/Live/Keep.antt =====
-- Pushing tokens, opening and closing collections, and noting keys keep the invariant.
use yamlrocks.Common.{
  ℕ, Bool, true, false, Bool-cases, false-ne-true, none, some, [], ◌∷◌, List, length, is_empty, ◌≡◌,
  ◌⊎◌, refl, sym, ◌∙◌, inl, inr, append-nil, ltb, leb, arith, not, ◌&&◌, ◌+◌, ◌-◌, and_parts,
  not-true,
}
use yamlrocks.Common.Int.{ℤ, pos, less}
use yamlrocks.Scanner.Reader.{Span}
use yamlrocks.Scanner.Token.{
  Token, block_mapping_start, block_sequence_start, block_end, flow_entry, block_entry, token,
}
use yamlrocks.Scanner.State.{Scanner, push_back, in_flow}
use yamlrocks.Scanner.Fetch.Indent.{
  open_level, below, close_level, is_none, note_possible_simple_key,
}
use yamlrocks.Scanner.Fetch.Flow.{max_flow_depth, flow_start, flow_end, opened}
use yamlrocks.Scanner.Fetch.Trivia.{on_line}
use yamlrocks.Scanner.Invariant.Nesting.{after, nesting-push, is_inner}
use yamlrocks.Scanner.Invariant.Live.{
  core, Live, IsNeutral, KeyAt-push, KeyAt-on_line, Levels-close, after-block_end,
  after-block_start, in_flow-none, outside,
}

pub Live-push :
    (e : List Token) (t : Token) (s : Scanner)
    → IsNeutral t.kind
    → Live e (core s)
    → Live e (core (push_back t s))
Live-push e t s (i, n) h = record {
  nested = nesting-push (0, []) e s.tokens t h.nested (n (length s.indent_stack, s.flow_kinds));
  level = h.level;
  bounded = h.bounded;
  levels = h.levels;
  key = KeyAt-push e s.tokens s.simple_key t i h.key;
  running = h.running;
}

-- A collection opens at a column behind the current indentation.
pub Live-open :
    (e : List Token) (t : Token) (column : ℕ) (b : Bool) (s : Scanner)
    → (t.kind ≡ block_mapping_start) ⊎ (t.kind ≡ block_sequence_start)
    → s.flow_kinds ≡ []
    → less s.current_indent (pos column) ≡ true
    → Live e (core s)
    → Live e (core (push_back t (open_level column b s)))
unfolding open_level
Live-open e t column b s k f l h =
    let (i, a) = after-block_start t.kind (length s.indent_stack) k in
    record {
      nested = nesting-push (0, []) e s.tokens t (outside e s h f) a ∙ rw (f) refl;
      level = h.level;
      bounded = h.bounded;
      levels = (l, h.levels);
      key = KeyAt-push e s.tokens s.simple_key t i h.key;
      running = h.running;
    }

pub Live-close :
    (e : List Token) (s : Scanner)
    → s.flow_kinds ≡ []
    → is_empty s.indent_stack ≡ false
    → Live e (core s)
    → Live e (core (close_level s))
unfolding close_level
Live-close e s f n h = record {
  nested =
      nesting-push (0, []) e s.tokens (token block_end s.reader.pos) (outside e s h f)
        (after-block_end s.indent_stack n)
      ∙ rw (f) refl;
  level = h.level;
  bounded = h.bounded;
  levels = Levels-close s.current_indent s.current_is_seq s.indent_stack s.indent_kinds n h.levels;
  key = KeyAt-push e s.tokens s.simple_key (token block_end s.reader.pos) refl h.key;
  running = h.running;
}

pub Live-note :
    (e : List Token) (span : Span) (s : Scanner)
    → Live e (core s)
    → Live e (core (note_possible_simple_key span s))
unfolding note_possible_simple_key
Live-note e span s h =
    elim (Bool-cases (not (in_flow s) && (s.simple_key_allowed && is_none s.simple_key))) [
      | inl b ↦
          let f : s.flow_kinds ≡ [] =
            in_flow-none e s h (not-true (in_flow s) (and_parts _ _ b).0) in
          rw (b) (record {
            nested = h.nested;
            level = h.level;
            bounded = h.bounded;
            levels = h.levels;
            key = (
              s.tokens,
              [],
              length s.indent_stack,
              sym (append-nil s.tokens),
              refl,
              outside e s h f,
              refl,
            );
            running = h.running;
          })
      | inr b ↦ rw (b) h
    ]

pub Live-flow_start :
    (e : List Token) (mapping : Bool) (span : Span) (s : Scanner)
    → leb max_flow_depth s.flow_level ≡ false
    → Live e (core s)
    → Live e (
        core (
          push_back
            (token (flow_start mapping) span)
            (record s { flow_level = s.flow_level + 1; flow_kinds = mapping ∷ s.flow_kinds })))
Live-flow_start e mapping span s d h = record {
  nested =
      nesting-push (0, []) e s.tokens (token (flow_start mapping) span) h.nested
        (starts mapping (length s.indent_stack) s.flow_kinds);
  level = omega (arith, h.level);
  bounded = ground (arith);
  levels = h.levels;
  key = KeyAt-push e s.tokens s.simple_key (token (flow_start mapping) span) (inner mapping) h.key;
  running = h.running;
}
  where
    starts : (b : Bool) (n : ℕ) (bs : List Bool) → after (flow_start b) (n, bs) ≡ some (n, b ∷ bs)
    starts true n bs = refl
    starts false n bs = refl

    inner : (b : Bool) → is_inner (flow_start b) ≡ true
    inner true = refl
    inner false = refl

pub Live-flow_end :
    (e : List Token) (mapping : Bool) (span : Span) (s : Scanner)
    → opened mapping s.flow_kinds ≡ true
    → Live e (core s)
    → Live e (
        core (
          push_back
            (token (flow_end mapping) span)
            (record s { flow_level = s.flow_level - 1; flow_kinds = below s.flow_kinds })))
Live-flow_end e mapping span s o h = record {
  nested =
      nesting-push (0, []) e s.tokens (token (flow_end mapping) span) h.nested
        (ends mapping (length s.indent_stack) s.flow_kinds o);
  level = lower s.flow_level s.flow_kinds h.level;
  bounded = omega (arith, h.bounded);
  levels = h.levels;
  key = KeyAt-push e s.tokens s.simple_key (token (flow_end mapping) span) (inner mapping) h.key;
  running = h.running;
}
  where
    ends :
        (b : Bool) (n : ℕ) (bs : List Bool)
        → opened b bs ≡ true
        → after (flow_end b) (n, bs) ≡ some (n, below bs)
    ends true n [] o = cc
    ends true n (true ∷ bs) o = refl
    ends true n (false ∷ bs) o = cc
    ends false n [] o = cc
    ends false n (true ∷ bs) o = cc
    ends false n (false ∷ bs) o = refl

    inner : (b : Bool) → is_inner (flow_end b) ≡ true
    inner true = refl
    inner false = refl

    lower : (n : ℕ) (bs : List Bool) → n ≡ length bs → n - 1 ≡ length (below bs)
    lower n [] l = omega arith
    lower n (b ∷ bs) l = omega arith

-- `,` inside a flow collection, and `-` inside a block collection.
pub Live-flow_entry :
    (e : List Token) (span : Span) (s : Scanner)
    → in_flow s ≡ true
    → Live e (core s)
    → Live e (core (push_back (token flow_entry span) s))
Live-flow_entry e span s f h = record {
  nested =
      nesting-push (0, []) e s.tokens (token flow_entry span) h.nested
        (stays s.flow_level (length s.indent_stack) s.flow_kinds h.level f);
  level = h.level;
  bounded = h.bounded;
  levels = h.levels;
  key = KeyAt-push e s.tokens s.simple_key (token flow_entry span) refl h.key;
  running = h.running;
}
  where
    stays :
        (l n : ℕ) (bs : List Bool)
        → l ≡ length bs
        → ltb 0 l ≡ true
        → after flow_entry (n, bs) ≡ some (n, bs)
    stays l n [] h f = ground arith
    stays l n (b ∷ bs) h f = refl

pub Live-block_entry :
    (e : List Token) (span : Span) (s : Scanner)
    → s.flow_kinds ≡ []
    → is_empty s.indent_stack ≡ false
    → Live e (core s)
    → Live e (core (push_back (token block_entry span) s))
Live-block_entry e span s f n h = record {
  nested =
      nesting-push (0, []) e s.tokens (token block_entry span) (outside e s h f)
        (stays s.indent_stack n)
      ∙ rw (f) refl;
  level = h.level;
  bounded = h.bounded;
  levels = h.levels;
  key = KeyAt-push e s.tokens s.simple_key (token block_entry span) refl h.key;
  running = h.running;
}
  where
    stays :
        (st : List ℤ)
        → is_empty st ≡ false
        → after block_entry (length st, []) ≡ some (length st, [])
    stays [] n = absurd (false-ne-true (sym n))
    stays (p ∷ ps) n = refl

-- A simple key may be dropped, for good or for being of another line.
pub Live-drop :
    (e : List Token) (s : Scanner)
    → Live e (core s)
    → Live e (core (record s { simple_key = none }))
Live-drop e s h = record {
  nested = h.nested;
  level = h.level;
  bounded = h.bounded;
  levels = h.levels;
  key = tt;
  running = h.running;
}

pub Live-on_line :
    (e : List Token) (line : ℕ) (s : Scanner)
    → Live e (core s)
    → Live e (core (record s { simple_key = on_line line s.simple_key }))
Live-on_line e line s h = record {
  nested = h.nested;
  level = h.level;
  bounded = h.bounded;
  levels = h.levels;
  key = KeyAt-on_line e s.tokens line s.simple_key h.key;
  running = h.running;
}
