-- ===== src/Scanner/Invariant/Closing.antt =====
-- Which levels `unwind_indents` closes (src/scanner/mod.rs).
use yamlrocks.Common.{
  ℕ, zero, suc, ◌<◌, true, false, Bool-cases, [], ◌∷◌, ◌++◌, List, length, all, is_empty, replicate,
  false-ne-true, append-nil, append_assoc, ◌≡◌, refl, sym, ap, ◌∙◌, inl, inr, arith,
}
use yamlrocks.Common.Int.{ℤ, negsuc, less}
use yamlrocks.Scanner.Token.{Token, block_end, token}
use yamlrocks.Scanner.State.{Scanner, in_flow}
use yamlrocks.Scanner.Fetch.Indent.{popped_or, below, close_level, unwound, unwind, unwind_indents}
use yamlrocks.Scanner.Invariant.Live.{core, Live, in_flow-none}
use yamlrocks.Scanner.Invariant.Live.Keep.{Live-close}
use yamlrocks.Scanner.Invariant.Indent.{IsColumn, opens-nonempty, below-lowers}

-- The indentations of the levels, the innermost one first
abbrev pub levels : Scanner → List ℤ
levels s = s.current_indent ∷ s.indent_stack

-- The second scanner is the first one without the levels that are deeper than the column: they are the
-- innermost ones, each has put a `block_end` at the reader's position behind the queue, and the level
-- that is left on top is no deeper. The reader and the flow collections are what they were.
pub record ClosesTo (column : ℤ) (s s' : Scanner) : Type 0 where
  pub closed : List ℤ
  pub levels_are : levels s ≡ closed ++ levels s'
  pub all_deeper : all (less column) closed ≡ true
  pub top_not_deeper : less column s'.current_indent ≡ false
  pub ends_queued : s'.tokens ≡ s.tokens ++ replicate (length closed) (token block_end s.reader.pos)
  pub same_reader : s'.reader ≡ s.reader
  pub same_flow : s'.flow_kinds ≡ s.flow_kinds

popped-below : (d : ℤ) (st : List ℤ) → is_empty st ≡ false → popped_or d st ∷ below st ≡ st
popped-below d [] h = absurd (false-ne-true (sym h))
popped-below d (p ∷ ps) h = refl

ClosesTo-close :
    (column : ℤ) (s s' : Scanner)
    → is_empty s.indent_stack ≡ false
    → less column s.current_indent ≡ true
    → ClosesTo column (unwound (close_level s)) s'
    → ClosesTo column s s'
unfolding close_level
ClosesTo-close column s s' n c h = record {
  closed = s.current_indent ∷ h.closed;
  levels_are =
      ap (λ st. s.current_indent ∷ st)
        (sym (popped-below (negsuc 0) s.indent_stack n) ∙ h.levels_are);
  all_deeper = rw (c) h.all_deeper;
  top_not_deeper = h.top_not_deeper;
  ends_queued = h.ends_queued ∙ append_assoc s.tokens (token block_end s.reader.pos ∷ []) _;
  same_reader = h.same_reader;
  same_flow = h.same_flow;
}

unwind-ClosesTo :
    (e : List Token) (column : ℤ) (fuel : ℕ) (s : Scanner)
    → IsColumn column
    → length s.indent_stack < fuel
    → s.flow_kinds ≡ []
    → Live e (core s)
    → Live e (core (unwind fuel column s)) × ClosesTo column s (unwind fuel column s)
unfolding unwind close_level
unwind-ClosesTo e column zero s i l f h = absurd (omega arith)
unwind-ClosesTo e column (suc fuel) s i l f h = elim (Bool-cases (less column s.current_indent)) [
  | inl c ↦
      let n =
        opens-nonempty column s.current_indent s.current_is_seq s.indent_stack s.indent_kinds i
          h.levels c in
      let (live, rest) =
        unwind-ClosesTo e column fuel (unwound (close_level s)) i
          (below-lowers s.indent_stack fuel n l) f (Live-close e s f n h) in
      rw (c) (live, ClosesTo-close column s (unwind fuel column (unwound (close_level s))) n c rest)
  | inr c ↦ rw (c) (
    h,
    record {
      closed = [];
      levels_are = refl;
      all_deeper = refl;
      top_not_deeper = c;
      ends_queued = sym (append-nil s.tokens);
      same_reader = refl;
      same_flow = refl;
    },
  )
]

-- For a column of at least -1, in a scanner outside of flow collections that keeps the invariant,
-- `unwind_indents` keeps the invariant and closes the levels that are deeper than the column, and only
-- those: each puts a `block_end` at the reader's position behind the queue, the level left on top is no
-- deeper than the column, and the reader and the flow collections stay as they are.
pub unwind_indents-ClosesTo :
    (e : List Token) (column : ℤ) (s : Scanner)
    → IsColumn column
    → in_flow s ≡ false
    → Live e (core s)
    → Live e (core (unwind_indents column s)) × ClosesTo column s (unwind_indents column s)
unfolding unwind_indents
unwind_indents-ClosesTo e column s i f h = rw (f) (
    unwind-ClosesTo e column (suc (length s.indent_stack)) s i (omega arith) (in_flow-none e s h f)
      h)
