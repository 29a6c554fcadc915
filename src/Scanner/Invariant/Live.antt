-- ===== src/Scanner/Invariant/Live.antt =====
-- What holds of a scanner before the end of its stream, and of the tokens that it has handed out.
pub mod Keep
use yamlrocks.Common.{
  ℕ, zero, suc, ◌≤◌, ◌<◌, Bool, true, false, Bool-cases, false-ne-true, Option, none, some, [], ◌∷◌,
  ◌++◌, List, all, length, is_empty, ◌≡◌, ◌⊎◌, refl, sym, ap, subst, ◌∙◌, inl, inr, append_assoc,
  append-nil, all-append, ltb, leb, ◌==◌, arith, Ensures-elim, not, ◌&&◌, ◌+◌, ◌-◌, and_parts,
  not-true,
}
use yamlrocks.Common.Int.{ℤ, pos, negsuc, less}
use yamlrocks.Scanner.Reader.{Span}
use yamlrocks.Scanner.Outcome.{Scan, ok, map}
use yamlrocks.Scanner.Token.{
  TokenKind, Token, block_mapping_start, block_sequence_start, block_end, key, flow_entry,
  block_entry, token,
}
use yamlrocks.Scanner.State.{Scanner, SimpleKey, push_back, in_flow}
use yamlrocks.Scanner.Fetch.Indent.{
  open_level, is_sequence_start, popped_or, below, close_level, is_none, note_possible_simple_key,
}
use yamlrocks.Scanner.Fetch.Flow.{max_flow_depth, flow_start, flow_end, opened}
use yamlrocks.Scanner.Fetch.Entry.{insert}
use yamlrocks.Scanner.Fetch.Trivia.{on_line}
use yamlrocks.Scanner.Invariant.Nesting.{
  Nest, after, nesting, nesting-append, nesting-push, nesting-suc, is_inner,
}

-- The part of a scanner that the nesting of its tokens depends on.
pub record Core : Type 0 where
  pub tokens : List Token
  pub indent_stack : List ℤ
  pub current_indent : ℤ
  pub current_is_seq : Bool
  pub indent_kinds : List Bool
  pub flow_level : ℕ
  pub flow_kinds : List Bool
  pub simple_key : Option SimpleKey
  pub stream_started : Bool
  pub stream_ended : Bool

abbrev pub core : Scanner → Core
core s = record {
  tokens = s.tokens;
  indent_stack = s.indent_stack;
  current_indent = s.current_indent;
  current_is_seq = s.current_is_seq;
  indent_kinds = s.indent_kinds;
  flow_level = s.flow_level;
  flow_kinds = s.flow_kinds;
  simple_key = s.simple_key;
  stream_started = s.stream_started;
  stream_ended = s.stream_ended;
}

-- The indentations grow from -1, which is that of no collection, and the kinds go with them.
abbrev pub Levels : ℤ → Bool → List ℤ → List Bool → Type 0
Levels c is_seq [] [] = (c ≡ negsuc 0) × (is_seq ≡ false)
Levels c is_seq (p ∷ ps) (k ∷ ks) = (less p c ≡ true) × Levels p k ps ks
Levels c is_seq _ _ = ⊥

-- A simple key stands in front of a buffered token, outside of every flow collection.
abbrev pub KeyAt : List Token → List Token → Option SimpleKey → Type 0
KeyAt e ts none = Unit
KeyAt e ts (some k) =
    (pre : List Token) × (post : List Token) × (n : ℕ) × (ts ≡ pre ++ post)
    × (length pre ≡ k.index)
    × (nesting (0, []) (e ++ pre) ≡ some (n, []))
    × (all (λ t. is_inner t.kind) post ≡ true)

-- `e` are the tokens that were handed out.
pub record Live (e : List Token) (c : Core) : Type 0 where
  pub nested : nesting (0, []) (e ++ c.tokens) ≡ some (length c.indent_stack, c.flow_kinds)
  pub level : c.flow_level ≡ length c.flow_kinds
  pub bounded : c.flow_level ≤ 1000
  pub levels : Levels c.current_indent c.current_is_seq c.indent_stack c.indent_kinds
  pub key : KeyAt e c.tokens c.simple_key
  pub running : (c.stream_started ≡ true) × (c.stream_ended ≡ false)

abbrev pub IsNeutral : TokenKind → Type 0
IsNeutral k = (is_inner k ≡ true) × ((a : Nest) → after k a ≡ some a)

pub KeyAt-push :
    (e ts : List Token) (k : Option SimpleKey) (t : Token)
    → is_inner t.kind ≡ true
    → KeyAt e ts k
    → KeyAt e (ts ++ t ∷ []) k
KeyAt-push e ts none t i h = tt
KeyAt-push e ts (some k) t i (pre, post, n, a, l, b, d) = (
  pre,
  post ++ t ∷ [],
  n,
  ap (λ ts. ts ++ t ∷ []) a ∙ append_assoc pre post (t ∷ []),
  l,
  b,
  all-append (λ t. is_inner t.kind) post (t ∷ []) ∙ rw (d, i) refl,
)

pub KeyAt-on_line :
    (e ts : List Token) (line : ℕ) (k : Option SimpleKey)
    → KeyAt e ts k
    → KeyAt e ts (on_line line k)
KeyAt-on_line e ts line none h = tt
KeyAt-on_line e ts line (some k) h = elim (Bool-cases (k.line == line)) [
  | inl l ↦ rw (l) h
  | inr l ↦ rw (l) tt
]

pub Levels-nonempty :
    (c : ℤ) (b : Bool) (st : List ℤ) (ks : List Bool)
    → Levels c b st ks
    → less (negsuc 0) c ≡ true
    → is_empty st ≡ false
Levels-nonempty c b [] [] (h, _) l = absurd (false-ne-true (rw (h) at l))
Levels-nonempty c b [] (k ∷ ks) h l = absurd h
Levels-nonempty c b (p ∷ ps) ks h l = refl

pub Levels-seq-nonempty :
    (c : ℤ) (st : List ℤ) (ks : List Bool) → Levels c true st ks → is_empty st ≡ false
Levels-seq-nonempty c [] [] (_, h) = absurd (false-ne-true (sym h))
Levels-seq-nonempty c [] (k ∷ ks) h = absurd h
Levels-seq-nonempty c (p ∷ ps) ks h = refl

Levels-close :
    (c : ℤ) (b : Bool) (st : List ℤ) (ks : List Bool)
    → is_empty st ≡ false
    → Levels c b st ks
    → Levels (popped_or (negsuc 0) st) (popped_or false ks) (below st) (below ks)
Levels-close c b [] ks e h = absurd (false-ne-true (sym e))
Levels-close c b (p ∷ ps) [] e h = absurd h
Levels-close c b (p ∷ ps) (k ∷ ks) e h = h.1

after-block_end :
    (st : List ℤ)
    → is_empty st ≡ false
    → after block_end (length st, []) ≡ some (length (below st), [])
after-block_end [] e = absurd (false-ne-true (sym e))
after-block_end (p ∷ ps) e = refl

after-block_start :
    (k : TokenKind) (n : ℕ)
    → (k ≡ block_mapping_start) ⊎ (k ≡ block_sequence_start)
    → (is_inner k ≡ true) × (after k (n, []) ≡ some (suc n, []))
after-block_start k n (inl h) = rw (h) (refl, refl)
after-block_start k n (inr h) = rw (h) (refl, refl)

-- Outside of flow collections none is open.
pub in_flow-none :
    (e : List Token) (s : Scanner) → Live e (core s) → in_flow s ≡ false → s.flow_kinds ≡ []
in_flow-none e s h f = no_kinds s.flow_level s.flow_kinds h.level f
  where
    no_kinds : (n : ℕ) (ks : List Bool) → n ≡ length ks → ltb 0 n ≡ false → ks ≡ []
    no_kinds n [] l f = refl
    no_kinds n (b ∷ bs) l f = ground arith

abbrev NestedAt : List Token → Scanner → Type 0
NestedAt e s = nesting (0, []) (e ++ s.tokens) ≡ some (length s.indent_stack, [])

outside : (e : List Token) (s : Scanner) → Live e (core s) → s.flow_kinds ≡ [] → NestedAt e s
outside e s h f = h.nested ∙ rw (f) refl
