-- ===== src/Scanner/Invariant/Indent.antt =====
-- The operations on block indentation keep the invariant.
use yamlrocks.Common.{
  ℕ, zero, suc, ◌<◌, Bool, true, false, not, ◌&&◌, ◌||◌, Bool-cases, false-ne-true, [], ◌∷◌, List,
  length, is_empty, ◌==◌, ◌≡◌, ◌⊎◌, refl, sym, subst, ◌∙◌, inl, inr, or_parts, arith,
}
use yamlrocks.Common.Int.{ℤ, pos, negsuc, less, less-above}
use yamlrocks.Scanner.Reader.{Span, peek, peek_after_blanks}
use yamlrocks.Scanner.Runs.{check_next_is_blank, check_next_is_break_or_eof}
use yamlrocks.Scanner.Token.{Token, TokenKind, block_mapping_start, block_sequence_start, token}
use yamlrocks.Scanner.State.{Scanner, in_flow}
use yamlrocks.Scanner.Quoted.Within.{left}
use yamlrocks.Scanner.Fetch.Indent.{
  open_level, roll_indent, is_sequence_start, close_level, unwound, unwind, unwind_indents,
  is_column, below, close_seq_if_non_entry, check_no_block_trailing, ends_node,
}
use yamlrocks.Scanner.Invariant.Live.{core, Live, Levels, Levels-seq-nonempty, in_flow-none}
use yamlrocks.Scanner.Invariant.Live.Keep.{Live-open, Live-close}
use yamlrocks.Scanner.Invariant.Reaches.{Reaches}

-- An operation that takes no character.
abbrev pub Kept : List Token → Scanner → Scanner → Type 0
Kept e s s' = Live e (core s') × (left s'.reader ≡ left s.reader) × (s'.flow_level ≡ s.flow_level)

Levels-behind :
    (c : ℤ) (b : Bool) (st : List ℤ) (ks : List Bool) (column : ℕ)
    → Levels c b st ks
    → less c (pos column) ≡ false
    → is_empty st ≡ false
Levels-behind c b [] [] column (h, _) l = absurd (false-ne-true (sym (rw (h) at l)))
Levels-behind c b [] (k ∷ ks) column h l = absurd h
Levels-behind c b (p ∷ ps) ks column h l = refl

-- Behind `roll_indent` in block context a block collection is open.
abbrev pub Rolled : List Token → Scanner → Scanner → Type 0
Rolled e s s' = Kept e s s' × (in_flow s ≡ false → is_empty s'.indent_stack ≡ false)

pub roll_indent-Rolled :
    (e : List Token) (column : ℕ) (span : Span) (kind : TokenKind) (s : Scanner)
    → (kind ≡ block_mapping_start) ⊎ (kind ≡ block_sequence_start)
    → Live e (core s)
    → Reaches (Rolled e s) (roll_indent column span kind s)
unfolding roll_indent open_level
roll_indent-Rolled e column span kind s k h = elim (Bool-cases (in_flow s)) [
  | inl f ↦ rw (f) ((h, refl, refl), λ g. absurd (false-ne-true (sym g ∙ f)))
  | inr f ↦ elim (Bool-cases s.on_doc_start_line) [
    | inl d ↦ rw (f, d) tt
    | inr d ↦ elim (Bool-cases (less s.current_indent (pos column))) [
      | inl l ↦
          rw (f, d, l)
            (
              (
                Live-open e (token kind span) column (is_sequence_start kind) s k
                    (in_flow-none e s h f) l h,
                refl,
                refl,
              ),
              λ g. refl,
            )
      | inr l ↦
          rw (f, d, l)
            (
              (h, refl, refl),
              λ g.
                  Levels-behind s.current_indent s.current_is_seq s.indent_stack s.indent_kinds
                    column h.levels l,
            )
    ]
  ]
]

-- What `unwind_indents` reaches: a level that a token at `column` belongs to.
abbrev pub Unwound : List Token → ℤ → Scanner → Scanner → Type 0
Unwound e column s s' =
    Kept e s s' × (s'.flow_kinds ≡ s.flow_kinds) × (less column s'.current_indent ≡ false)

-- A column is no less than -1.
abbrev pub IsColumn : ℤ → Type 0
IsColumn column = less column (negsuc 0) ≡ false

pub opens-nonempty :
    (column c : ℤ) (b : Bool) (st : List ℤ) (ks : List Bool)
    → IsColumn column
    → Levels c b st ks
    → less column c ≡ true
    → is_empty st ≡ false
opens-nonempty column c b [] [] i (h, _) l = absurd (false-ne-true (sym i ∙ rw (h) at l))
opens-nonempty column c b [] (k ∷ ks) i h l = absurd h
opens-nonempty column c b (p ∷ ps) ks i h l = refl

pub below-lowers :
    {A : Type 0} (st : List A) (fuel : ℕ)
    → is_empty st ≡ false
    → length st < suc fuel
    → length (below st) < fuel
below-lowers [] fuel e l = absurd (false-ne-true (sym e))
below-lowers (p ∷ ps) fuel e l = omega arith

close_level-Kept :
    (e : List Token) (s : Scanner)
    → s.flow_kinds ≡ []
    → is_empty s.indent_stack ≡ false
    → Live e (core s)
    → Kept e s (close_level s)
unfolding close_level
close_level-Kept e s f n h = (Live-close e s f n h, refl, refl)

unwind-Unwound :
    (e : List Token) (column : ℤ) (fuel : ℕ) (s : Scanner)
    → IsColumn column
    → length s.indent_stack < fuel
    → s.flow_kinds ≡ []
    → Live e (core s)
    → Unwound e column s (unwind fuel column s)
unfolding unwind close_level
unwind-Unwound e column zero s i l f h = absurd (omega arith)
unwind-Unwound e column (suc fuel) s i l f h = elim (Bool-cases (less column s.current_indent)) [
  | inl c ↦
      let n =
        opens-nonempty column s.current_indent s.current_is_seq s.indent_stack s.indent_kinds i
          h.levels c in
      rw (c) (
        unwind-Unwound e column fuel (unwound (close_level s)) i
          (below-lowers s.indent_stack fuel n l) f (Live-close e s f n h))
  | inr c ↦ rw (c) ((h, refl, refl), refl, c)
]

-- Outside of flow collections and for a column of at least -1, `unwind_indents` closes levels until
-- the current indentation is no deeper than the column: the fuel of its loop is enough. It keeps the
-- invariant, the number of characters left and the flow collections.
pub unwind_indents-Unwound :
    (e : List Token) (column : ℤ) (s : Scanner)
    → IsColumn column
    → in_flow s ≡ false
    → Live e (core s)
    → Unwound e column s (unwind_indents column s)
unfolding unwind_indents
unwind_indents-Unwound e column s i f h = rw (f) (
    unwind-Unwound e column (suc (length s.indent_stack)) s i (omega arith) (in_flow-none e s h f)
      h)

Levels-top :
    (c : ℤ) (b : Bool) (p : ℤ) (st : List ℤ) (ks : List Bool)
    → Levels c b (p ∷ st) ks
    → less (negsuc 0) c ≡ true
Levels-top c b p [] (k ∷ []) (l, (h, _)) = rw (h) at l
Levels-top c b p [] (k ∷ k' ∷ ks) (l, h) = absurd h
Levels-top c b p (q ∷ st) (k ∷ ks) (l, h) = less-above p c (Levels-top p k q st ks h) l
Levels-top c b p st [] h = absurd h

-- No level but the outermost one has an indentation below 0.
pub all_closed :
    (c : ℤ) (b : Bool) (st : List ℤ) (ks : List Bool)
    → Levels c b st ks
    → less (negsuc 0) c ≡ false
    → st ≡ []
all_closed c b [] ks h l = refl
all_closed c b (p ∷ st) ks h l = absurd (false-ne-true (sym l ∙ Levels-top c b p st ks h))

pub close_seq-Kept :
    (e : List Token) (s : Scanner) → Live e (core s) → Kept e s (close_seq_if_non_entry s)
unfolding close_seq_if_non_entry
close_seq-Kept e s h =
    let entry : Bool =
      peek s.reader == b'-'
      && (check_next_is_blank s.reader || check_next_is_break_or_eof s.reader) in
    elim (Bool-cases (not s.current_is_seq || in_flow s)) [
      | inl a ↦ rw (a) (h, refl, refl)
      | inr a ↦
          let (q, f) = or_parts (not s.current_is_seq) (in_flow s) a in
          elim (Bool-cases (not (is_column s.reader.pos.column s.current_indent))) [
            | inl c ↦ rw (a, c) (h, refl, refl)
            | inr c ↦ elim (Bool-cases entry) [
              | inl d ↦ rw (a, c, d) (h, refl, refl)
              | inr d ↦
                  rw (a, c, d)
                    (close_level-Kept e s (in_flow-none e s h f)
                      (seq_nonempty s.current_indent s.current_is_seq s.indent_stack s.indent_kinds
                        q h.levels)
                      h)
            ]
          ]
    ]
  where
    seq_nonempty :
        (c : ℤ) (b : Bool) (st : List ℤ) (ks : List Bool)
        → not b ≡ false
        → Levels c b st ks
        → is_empty st ≡ false
    seq_nonempty c true st ks q h = Levels-seq-nonempty c st ks h
    seq_nonempty c false st ks q h = cc

pub check_no_block_trailing-Kept :
    (e : List Token) (s : Scanner)
    → Live e (core s)
    → Reaches (λ s'. s' ≡ s) (check_no_block_trailing s)
unfolding check_no_block_trailing
check_no_block_trailing-Kept e s h = elim (Bool-cases (in_flow s)) [
  | inl f ↦ rw (f) refl
  | inr f ↦ elim (Bool-cases (ends_node (peek_after_blanks s.reader))) [
    | inl n ↦ rw (f, n) refl
    | inr n ↦ rw (f, n) tt
  ]
]

-- Behind the last level stands the indentation -1.
pub closed-Live :
    (e : List Token) (s : Scanner)
    → less (negsuc 0) s.current_indent ≡ false
    → Live e (core s)
    → Live e (core (record s { current_indent = negsuc 0 }))
closed-Live e s l h =
    subst (λ c. Live e (core (record s { current_indent = c })))
      (outermost s.current_indent s.current_is_seq s.indent_stack s.indent_kinds h.levels l) h
  where
    outermost :
        (c : ℤ) (b : Bool) (st : List ℤ) (ks : List Bool)
        → Levels c b st ks
        → less (negsuc 0) c ≡ false
        → c ≡ negsuc 0
    outermost c b [] [] (h, _) l = h
    outermost c b [] (k ∷ ks) h l = absurd h
    outermost c b (p ∷ st) ks h l = absurd (false-ne-true (sym l ∙ Levels-top c b p st ks h))
