-- ===== src/Scanner/Invariant/Start.antt =====
-- Where the dispatch comes to a plain scalar, none of the conditions that end one holds.
use yamlrocks.Common.{
  ℕ, Bool, true, false, ◌&&◌, ◌||◌, ltb, Option, none, some, false-ne-true, ◌==◌, ◌≡◌, refl, sym,
}
use yamlrocks.Scanner.CharClass.{is_flow_indicator, is_whitespace_or_break, is_whitespace_or_flow}
use yamlrocks.Scanner.Reader.{Reader, is_eof}
use yamlrocks.Scanner.Runs.{peek_next}
use yamlrocks.Scanner.Quoted.{none_or}
use yamlrocks.Scanner.Plain.{ends_plain, start_state}

and-false : (b : Bool) → (b && false) ≡ false
and-false true = refl
and-false false = refl

or-false : (b : Bool) → (b || false) ≡ b
or-false true = refl
or-false false = refl

-- No end condition holds in front of a plain scalar.
starts_plain :
    (flow : Bool) (ch : ℕ) (r : Reader)
    → is_eof r ≡ false
    → (ch == b':'
        && none_or (λ c. is_whitespace_or_break c || (flow && is_flow_indicator c)) (peek_next r))
      ≡ false
    → (flow && is_flow_indicator ch) ≡ false
    → ends_plain r.pos.offset flow ch (start_state r) ≡ false
unfolding ends_plain
starts_plain flow ch r e c f =
    rw (e, c, and-false (ltb r.pos.offset r.pos.offset), and-false (ch == b'#')) f

pub starts_in_block :
    (flow : Bool) (ch : ℕ) (r : Reader)
    → flow ≡ false
    → is_eof r ≡ false
    → (ch == b':' && none_or is_whitespace_or_break (peek_next r)) ≡ false
    → ends_plain r.pos.offset flow ch (start_state r) ≡ false
starts_in_block true ch r f e c = absurd (false-ne-true (sym f))
starts_in_block false ch r f e c = starts_plain false ch r e (rw (same (peek_next r)) c) refl
  where
    same :
        (o : Option ℕ)
        → none_or (λ c. is_whitespace_or_break c || (false && is_flow_indicator c)) o
          ≡ none_or is_whitespace_or_break o
    same none = refl
    same (some c) = or-false (is_whitespace_or_break c)

pub starts_in_flow :
    (flow : Bool) (ch : ℕ) (prev_json : Bool) (r : Reader)
    → flow ≡ true
    → is_eof r ≡ false
    → (ch == b':' && (prev_json || none_or is_whitespace_or_flow (peek_next r))) ≡ false
    → is_flow_indicator ch ≡ false
    → ends_plain r.pos.offset flow ch (start_state r) ≡ false
unfolding is_whitespace_or_flow
starts_in_flow false ch prev_json r f e c i = absurd (false-ne-true f)
starts_in_flow true ch prev_json r f e c i =
    starts_plain true ch r e
      (rw (same (peek_next r))
        (drop_or (ch == b':') prev_json (none_or is_whitespace_or_flow (peek_next r)) c))
      i
  where
    same :
        (o : Option ℕ)
        → none_or (λ c. is_whitespace_or_break c || (true && is_flow_indicator c)) o
          ≡ none_or is_whitespace_or_flow o
    same none = refl
    same (some c) = refl

    drop_or : (a b c : Bool) → (a && (b || c)) ≡ false → (a && c) ≡ false
    drop_or true true c h = cc
    drop_or true false c h = h
    drop_or false b c h = refl

pub not_indicator :
    (ch : ℕ)
    → (ch == b',') ≡ false
    → (ch == b'[') ≡ false
    → (ch == b']') ≡ false
    → (ch == b'{') ≡ false
    → (ch == b'}') ≡ false
    → is_flow_indicator ch ≡ false
unfolding is_flow_indicator
not_indicator ch a b c d e = rw (a, b, c, d, e) refl
