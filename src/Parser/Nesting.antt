-- ===== src/Parser/Nesting.antt =====
-- Events nest as the tokens they are made from do.
use yamlrocks.Common.{
  ℕ, zero, suc, Bool, true, false, Option, none, some, [], ◌∷◌, ◌++◌, List, Text, ◌>>=◌, ◌≡◌, refl,
  sym, ap, ◌∙◌, inl, inr, map, Option-cases,
}
use yamlrocks.Scanner.Reader.{Span}
use yamlrocks.Scanner.Token.{TokenKind, Token}
use yamlrocks.Scanner.Fetch.Queue.{next_token}
use yamlrocks.Scanner.Invariant.Nesting.{Nest, after, nesting}
use yamlrocks.Scanner.Invariant.Reaches.{Reaches, Reaches-bind, Reaches-map, Reaches-weaken}
use yamlrocks.Scanner.Invariant.Stream.{Valid, new-Fresh}
use yamlrocks.Scanner.Invariant.Stream.Next.{Handed, next_token-Valid}
use yamlrocks.Scanner.Invariant.Prefix.{Valid-nesting}
use yamlrocks.Parser.{
  EventKind, Event, stream_end, mapping_start, sequence_start, mapping_end, sequence_end, block_end,
  sequence_entry, flow_entry, kind_to_event, token_to_event, Parser, new_parser, with_scanner,
  parser_token, to_event, next_event, events_from,
}

-- The nesting of events: a flow collection ends with an event of its kind, a block collection with
-- `block_end`.
abbrev pub after_event : EventKind → Nest → Option Nest
after_event stream_end (zero, []) = some (zero, [])
after_event stream_end _ = none
after_event (mapping_start true) (n, bs) = some (n, true ∷ bs)
after_event (sequence_start true) (n, bs) = some (n, false ∷ bs)
after_event (mapping_start false) (n, []) = some (suc n, [])
after_event (mapping_start false) (n, b ∷ bs) = none
after_event (sequence_start false) (n, []) = some (suc n, [])
after_event (sequence_start false) (n, b ∷ bs) = none
after_event mapping_end (n, true ∷ bs) = some (n, bs)
after_event mapping_end _ = none
after_event sequence_end (n, false ∷ bs) = some (n, bs)
after_event sequence_end _ = none
after_event block_end (suc n, []) = some (n, [])
after_event block_end _ = none
after_event sequence_entry (suc n, []) = some (suc n, [])
after_event sequence_entry _ = none
after_event flow_entry (n, b ∷ bs) = some (n, b ∷ bs)
after_event flow_entry (n, []) = none
after_event _ a = some a

abbrev pub events_nesting : Nest → List Event → Option Nest
events_nesting a [] = some a
events_nesting a (e ∷ es) = after_event e.kind a >>= λ b. events_nesting b es

after-kind :
    (k : TokenKind) (n : ℕ) (bs : List Bool) (s : Span) (end : ℕ)
    → after_event (kind_to_event k s end).kind (n, bs) ≡ after k (n, bs)
unfolding kind_to_event
after-kind TokenKind.stream_start n bs s end = refl
after-kind TokenKind.document_start n bs s end = refl
after-kind TokenKind.document_end n bs s end = refl
after-kind (TokenKind.directive x) n bs s end = refl
after-kind TokenKind.stream_end zero [] s end = refl
after-kind TokenKind.stream_end zero (b ∷ bs) s end = refl
after-kind TokenKind.stream_end (suc n) bs s end = refl
after-kind TokenKind.block_mapping_start n [] s end = refl
after-kind TokenKind.block_mapping_start n (b ∷ bs) s end = refl
after-kind TokenKind.block_sequence_start n [] s end = refl
after-kind TokenKind.block_sequence_start n (b ∷ bs) s end = refl
after-kind TokenKind.block_end zero bs s end = refl
after-kind TokenKind.block_end (suc n) [] s end = refl
after-kind TokenKind.block_end (suc n) (b ∷ bs) s end = refl
after-kind TokenKind.block_entry zero bs s end = refl
after-kind TokenKind.block_entry (suc n) [] s end = refl
after-kind TokenKind.block_entry (suc n) (b ∷ bs) s end = refl
after-kind TokenKind.flow_mapping_start n bs s end = refl
after-kind TokenKind.flow_sequence_start n bs s end = refl
after-kind TokenKind.flow_mapping_end n [] s end = refl
after-kind TokenKind.flow_mapping_end n (true ∷ bs) s end = refl
after-kind TokenKind.flow_mapping_end n (false ∷ bs) s end = refl
after-kind TokenKind.flow_sequence_end n [] s end = refl
after-kind TokenKind.flow_sequence_end n (true ∷ bs) s end = refl
after-kind TokenKind.flow_sequence_end n (false ∷ bs) s end = refl
after-kind TokenKind.flow_entry n [] s end = refl
after-kind TokenKind.flow_entry n (b ∷ bs) s end = refl
after-kind (TokenKind.key x) n bs s end = refl
after-kind TokenKind.value n bs s end = refl
after-kind (TokenKind.scalar c x) n bs s end = refl
after-kind (TokenKind.anchor x) n bs s end = refl
after-kind (TokenKind.alias x) n bs s end = refl
after-kind (TokenKind.tag x) n bs s end = refl

pub events-nesting :
    (a : Nest) (ts : List Token) → events_nesting a (map token_to_event ts) ≡ nesting a ts
unfolding token_to_event
events-nesting a [] = refl
events-nesting a (t ∷ ts) = elim (Option-cases (after t.kind a)) [
  | inl h ↦ rw (after-kind t.kind a.0 a.1 t.span t.end_offset, h) refl
  | inr (b, h) ↦ rw (after-kind t.kind a.0 a.1 t.span t.end_offset, h) (events-nesting b ts)
]

pub map-snoc :
    (ts : List Token) (t : Token)
    → map token_to_event (ts ++ t ∷ []) ≡ map token_to_event ts ++ token_to_event t ∷ []
map-snoc [] t = refl
map-snoc (x ∷ ts) t = ap (λ es. token_to_event x ∷ es) (map-snoc ts t)

-- Events that are made from tokens that the parser's scanner handed out.
abbrev pub Parsed : List Event → Parser → Type 0
Parsed es p =
    (ts : List Token) × (es ≡ map token_to_event ts) × Valid ts p.scanner × (p.peeked ≡ none)

parser_token-Handed :
    (e : List Token) (p : Parser)
    → Valid e p.scanner
    → p.peeked ≡ none
    → Reaches
        (λ (q : Token × Parser). Valid (e ++ q.0 ∷ []) q.1.scanner × (q.1.peeked ≡ none))
        (parser_token p)
unfolding parser_token
parser_token-Handed e p v n = rw (n) (
    Reaches-map (Handed e) _ (with_scanner p) (next_token p.scanner) (λ q h. (h, refl))
      (next_token-Valid e p.scanner v))

events_from-Parsed :
    (n : ℕ) (es : List Event) (p : Parser)
    → Parsed es p
    → Reaches (λ q. Parsed q.0 q.1) (events_from n es p)
unfolding events_from
events_from-Parsed zero es p h = h
events_from-Parsed (suc n) es p (ts, m, v, k) =
    let Next : Event × Parser → Type 0 = λ q. Parsed (es ++ q.0 ∷ []) q.1 in
    Reaches-bind Next (λ q. Parsed q.0 q.1) (next_event p) _
      (λ q h. events_from-Parsed n (es ++ q.0 ∷ []) q.1 h)
      (Reaches-map
        (λ (q : Token × Parser). Valid (ts ++ q.0 ∷ []) q.1.scanner × (q.1.peeked ≡ none)) Next
        to_event (parser_token p)
        (λ q h. (
          ts ++ q.0 ∷ [],
          ap (λ es. es ++ token_to_event q.0 ∷ []) m ∙ sym (map-snoc ts q.0),
          h.0,
          h.1,
        ))
        (parser_token-Handed ts p v k))

-- Whatever the input and the number, the parser gives that many events or an error, and its events
-- nest: block collections end with `block_end`, flow collections with an event of their own kind, and
-- the stream ends outside of every collection.
pub events_from-nesting :
    (n : ℕ) (input : Text)
    → Reaches
        (λ q. (a : Nest) × (events_nesting (0, []) q.0 ≡ some a))
        (events_from n [] (new_parser input))
unfolding new_parser
events_from-nesting n input =
    Reaches-weaken (λ q. Parsed q.0 q.1) (λ q. (a : Nest) × (events_nesting (0, []) q.0 ≡ some a))
      (events_from n [] (new_parser input))
      (λ q h.
        let (ts, m, v, _) = h in
        let (a, nests) = Valid-nesting ts q.1.scanner v in
        (a, ap (events_nesting (0, [])) m ∙ (events-nesting (0, []) ts ∙ nests)))
      (events_from-Parsed n [] (new_parser input) ([], refl, inl (new-Fresh input), refl))
