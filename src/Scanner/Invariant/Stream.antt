-- ===== src/Scanner/Invariant/Stream.antt =====
-- The queue of tokens: `next_token` gives a token or an error, and keeps the invariant.
pub mod Next
use yamlrocks.Common.{
  ℕ, zero, suc, ◌+◌, ◌≤◌, ◌<◌, Bool, true, false, not, ◌&&◌, Bool-cases, false-ne-true, Option,
  none, some, Option-cases, [], ◌∷◌, ◌++◌, List, length, is_empty, ltb, ◌==◌, ◌≡◌, ◌⊎◌, refl, sym,
  ap, subst, ◌∙◌, inl, inr, arith, append_assoc, append-nil, if◌then◌else◌, Text, >>=-eq-some,
}
use yamlrocks.Common.Int.{pos, negsuc, less}
use yamlrocks.Scanner.Reader.{Span, Reader, is_eof, peek}
use yamlrocks.Scanner.Outcome.{Scan, ok, err, stuck, Step, map, iterate, ◌>>=◌}
use yamlrocks.Scanner.Quoted.{at_most}
use yamlrocks.Scanner.Quoted.Within.{left}
use yamlrocks.Scanner.Printable.{as_bytes, check_printable}
use yamlrocks.Scanner.Token.{Token, stream_start, stream_end, token}
use yamlrocks.Scanner.State.{Scanner, SimpleKey, new, push_back, in_flow}
use yamlrocks.Scanner.Fetch.Indent.{unwind_indents, close_seq_if_non_entry}
use yamlrocks.Scanner.Fetch.Trivia.{scan_to_next_token}
use yamlrocks.Scanner.Fetch.{fetch_next_token}
use yamlrocks.Scanner.Fetch.Queue.{
  non_printable_error, printed, fetch_stream_start, fetch_stream_end, close_levels, fetch_at,
  fetch_more_tokens, handed, waiting, ready, fetched, next_step, next_token,
}
use yamlrocks.Scanner.Invariant.Nesting.{Nest, after, nesting, nesting-push, nesting-append}
use yamlrocks.Scanner.Invariant.Live.{core, KeyAt, Live, in_flow-none}
use yamlrocks.Scanner.Invariant.Live.Keep.{Live-push, Live-drop}
use yamlrocks.Scanner.Invariant.Reaches.{
  Reaches, Reaches-map, Reaches-bind, Reaches-if, Reaches-guard, Reaches-weaken, Steps, Steps-if,
  iterate-Reaches,
}
use yamlrocks.Scanner.Invariant.Indent.{Kept, unwind_indents-Unwound, close_seq-Kept, all_closed}
use yamlrocks.Scanner.Invariant.Entry.{Good}
use yamlrocks.Scanner.Invariant.Trivia.{Near, scan_to_next_token-Near}
use yamlrocks.Scanner.Invariant.Sizes.{is_eof-left}
use yamlrocks.Scanner.Invariant.Dispatch.{fetch_next_token-Good}

-- The end of the stream was reached: every collection is closed.
abbrev pub Closed : List Token → Scanner → Type 0
Closed e s =
    (nesting (0, []) (e ++ s.tokens) ≡ some (0, []))
    × (s.stream_started ≡ true)
    × (s.stream_ended ≡ true)

-- The stream is still to be started.
abbrev pub Fresh : List Token → Scanner → Type 0
Fresh e s = (s.stream_started ≡ false) × Live e (core (record s { stream_started = true }))

-- A scanner that has handed out the tokens `e`.
abbrev pub Valid : List Token → Scanner → Type 0
Valid e s = Fresh e s ⊎ (Live e (core s) ⊎ Closed e s)

abbrev flag : Bool → ℕ
flag true = 0
flag false = 1

-- What a turn of `next_token` lowers.
abbrev pub size : Scanner → ℕ
size s = left s.reader + (flag s.stream_started + flag s.stream_ended)

-- What a fetch reaches.
abbrev Fetched : List Token → ℕ → Scanner → Type 0
Fetched e n s = Valid e s × (size s < n)

pub new-Fresh : (input : Text) → Fresh [] (new input)
unfolding new
new-Fresh input = (
  refl,
  record {
    nested = refl;
    level = refl;
    bounded = omega arith;
    levels = (refl, refl);
    key = tt;
    running = (refl, refl);
  },
)

size-Live : (e : List Token) (s : Scanner) → Live e (core s) → size s ≡ suc (left s.reader)
size-Live e s h = rw (h.running.0, h.running.1) (omega arith)

stream_end-Closed :
    (e : List Token) (s : Scanner)
    → Live e (core s)
    → Reaches (λ s'. Closed e s' × (left s'.reader ≡ left s.reader)) (fetch_stream_end s)
unfolding fetch_stream_end
stream_end-Closed e s h =
    let dropped : Scanner = record s { simple_key = none } in
    let closed : Scanner = unwind_indents (negsuc 0) dropped in
    Reaches-guard (λ s'. Closed e s' × (left s'.reader ≡ left s.reader)) (in_flow s) _ _ _
      (λ f.
        let (kept, flows, l) =
          unwind_indents-Unwound e (negsuc 0) dropped refl f (Live-drop e s h) in
        let none_open : closed.indent_stack ≡ [] =
          all_closed closed.current_indent closed.current_is_seq closed.indent_stack
            closed.indent_kinds kept.0.levels l in
        let no_flow : closed.flow_kinds ≡ [] = flows ∙ in_flow-none e s h f in
        let at_zero : nesting (0, []) (e ++ closed.tokens) ≡ some (0, []) =
          kept.0.nested ∙ rw (none_open, no_flow) refl in
        (
          (
            nesting-push (0, []) e closed.tokens (token stream_end s.reader.pos) at_zero refl,
            kept.0.running.0,
            refl,
          ),
          kept.1,
        ))

close_levels-Kept :
    (e : List Token) (s : Scanner)
    → Live e (core s)
    → Live e (core (close_levels s)) × (left (close_levels s).reader ≡ left s.reader)
unfolding close_levels
close_levels-Kept e s h =
    let opened : Scanner = record s { unwound_block_level = false } in
    let closed : Scanner = unwind_indents (pos s.reader.pos.column) opened in
    elim (Bool-cases (in_flow s)) [
      | inl f ↦ rw (f) (h, refl)
      | inr f ↦
          let (kept, _, _) = unwind_indents-Unwound e (pos s.reader.pos.column) opened refl f h in
          let (live, l, _) = close_seq-Kept e closed kept.0 in rw (f) (live, l ∙ kept.1)
    ]

left-is_eof : (r : Reader) → 0 < left r → is_eof r ≡ false
left-is_eof r h = not_empty r.rest h
  where
    not_empty : (text : Text) → 0 < length text → is_empty text ≡ false
    not_empty [] h = absurd (omega arith)
    not_empty (c ∷ cs) h = refl

fetch_at-Fetched :
    (e : List Token) (n : ℕ) (line_before : ℕ) (s : Scanner)
    → Live e (core s)
    → left s.reader ≤ n
    → Reaches (Fetched e (suc n)) (fetch_at line_before s)
unfolding fetch_at
fetch_at-Fetched e n line_before s h l =
    let Q = Fetched e (suc n) in
    Reaches-if Q (is_eof s.reader) _ _
      (λ _.
        Reaches-if Q s.stream_ended _ _ (λ ended. absurd (false-ne-true (sym h.running.1 ∙ ended)))
          (λ _.
            Reaches-weaken (λ s'. Closed e s' × (left s'.reader ≡ left s.reader)) Q
              (fetch_stream_end s) (λ s' c. (inr (inr c.0), rw (c.0.1, c.0.2) (omega (arith, c.1))))
              (stream_end-Closed e s h)))
      (λ eof.
        Reaches-guard Q
          (in_flow s
            && (ltb line_before s.reader.pos.line
                && at_most s.reader.pos.column s.flow_block_indent))
          _ _ _
          (λ _.
            let (live, k) = close_levels-Kept e s h in
            Reaches-weaken (Good e (left (close_levels s).reader)) Q
              (fetch_next_token (close_levels s))
              (λ s' g. (inr (inl g.0), rw (size-Live e s' g.0) (omega (arith, g.1))))
              (fetch_next_token-Good e (close_levels s) live
                (left-is_eof (close_levels s).reader (rw (k) (is_eof-left s.reader eof))))))

non_printable-Reaches :
    (P : Scanner → Type 0) (prev_cr : Bool) (offset : ℕ) (s : Span) (text : Text)
    → Reaches P (non_printable_error prev_cr offset s text)
unfolding non_printable_error
non_printable-Reaches P prev_cr offset s [] = tt
non_printable-Reaches P prev_cr offset s (c ∷ cs) =
    Reaches-if P (ltb s.offset offset) _ _ (λ _. non_printable-Reaches P (c == b'\r') offset _ cs)
      (λ _. tt)

printed-Reaches :
    (P : Scanner → Type 0) (s : Scanner) (o : Option ℕ) → P s → Reaches P (printed s o)
printed-Reaches P s none p = p
printed-Reaches P s (some offset) p =
    non_printable-Reaches P false offset s.reader.pos s.reader.rest

stream_start-Fetched :
    (e : List Token) (s : Scanner) → Fresh e s → Reaches (Fetched e (size s)) (fetch_stream_start s)
unfolding fetch_stream_start
stream_start-Fetched e s (f, h) =
    let started : Scanner = record s { stream_started = true } in
    Reaches-map (λ s'. s' ≡ started) (Fetched e (size s))
      (push_back (token stream_start s.reader.pos)) _
      (λ s' q. rw (q) (
        inr (inl (Live-push e (token stream_start s.reader.pos) started (refl, λ a. refl) h)),
        rw (f) (omega arith),
      ))
      (printed-Reaches (λ s'. s' ≡ started) started _ refl)

fetch_more-Fetched :
    (e : List Token) (s : Scanner)
    → Fresh e s ⊎ Live e (core s)
    → Reaches (Fetched e (size s)) (fetch_more_tokens s)
unfolding fetch_more_tokens
fetch_more-Fetched e s (inl f) =
    Reaches-if (Fetched e (size s)) (not s.stream_started) _ _ (λ _. stream_start-Fetched e s f)
      (λ n. absurd (false-ne-true (sym (rw (f.0) at n))))
fetch_more-Fetched e s (inr h) =
    Reaches-if (Fetched e (size s)) (not s.stream_started) _ _
      (λ n. absurd (false-ne-true (rw (h.running.0) at n)))
      (λ _.
        Reaches-bind (Near e (left s.reader)) (Fetched e (size s)) (scan_to_next_token s)
          (fetch_at s.reader.pos.line)
          (λ s' g.
            subst (λ n. Reaches (Fetched e n) (fetch_at s.reader.pos.line s'))
              (sym (size-Live e s h))
              (fetch_at-Fetched e (left s.reader) s.reader.pos.line s' g.0 g.1))
          (scan_to_next_token-Near e s h))
