-- ===== src/Parser/Ending.antt =====
-- The loop of `parse_all` ends.
use yamlrocks.Common.{
  zero, false-ne-true, >>=-eq-some, ℕ, suc, ◌≤◌, ◌<◌, true, Bool-cases, [], ◌∷◌, ◌++◌, List, Text,
  length, none, some, ◌≡◌, refl, sym, ap, ◌∙◌, inl, inr, ◌⊎◌,
}
use yamlrocks.Scanner.Outcome.{Scan, ok, err, stuck}
use yamlrocks.Scanner.Token.{TokenKind, Token}
use yamlrocks.Scanner.Fetch.Queue.{next_token}
use yamlrocks.Scanner.Invariant.Nesting.{Nest}
use yamlrocks.Scanner.Invariant.Reaches.{Reaches, Reaches-map}
use yamlrocks.Scanner.Invariant.Stream.{size, new-Fresh}
use yamlrocks.Scanner.Invariant.Stream.Next.{Handed}
use yamlrocks.Scanner.Invariant.Prefix.{Valid-nesting}
use yamlrocks.Scanner.Invariant.Progress.{Progress, next_token-Progress, Turns, iterate-ends}
use yamlrocks.Parser.{
  EventKind, Event, stream_end, stream_start, document_start, document_end, mapping_start,
  sequence_start, mapping_end, sequence_end, block_end, key, value, sequence_entry, flow_entry,
  scalar, anchor, alias, tag, directive, kind_to_event, token_to_event, Parser, new_parser,
  with_scanner, parser_token, to_event, next_event, is_end, turned, parse_step, parse_all,
}
use yamlrocks.Parser.Nesting.{after_event, events_nesting, Parsed, events-nesting, map-snoc}

-- The events of a whole stream: the last one is its end, and all collections are closed.
abbrev pub WholeStream : List Event → Type 0
WholeStream es =
    (front : List Event) × (last : Event) × (es ≡ front ++ last ∷ [])
    × (is_end last.kind ≡ true)
    × (events_nesting (0, []) es ≡ some (0, []))

-- The loop's state: events made from tokens that were handed out.
abbrev Running : List Event × Parser → Type 0
Running (es, p) = Parsed es p

abbrev characters : List Event × Parser → ℕ
characters (es, p) = size p.scanner

abbrev queued : List Event × Parser → ℕ
queued (es, p) = length p.scanner.tokens

end-event : (t : Token) → t.kind ≡ TokenKind.stream_end → is_end (token_to_event t).kind ≡ true
unfolding token_to_event kind_to_event
end-event t h = rw (h) refl

-- What an event leaves to do.
abbrev Next : List Event → Parser → Event × Parser → Type 0
Next es p (e, p') =
    Parsed (es ++ e ∷ []) p'
    × ((is_end e.kind ≡ true)
        ⊎ ((size p'.scanner < size p.scanner)
            ⊎ ((size p'.scanner ≤ size p.scanner)
                × (length p'.scanner.tokens < length p.scanner.tokens))))

next_event-Next : (es : List Event) (p : Parser) → Parsed es p → Reaches (Next es p) (next_event p)
unfolding next_event parser_token
next_event-Next es p (ts, m, v, k) =
    let Behind : Token × Parser → Type 0 = λ q.
      (Handed ts (q.0, q.1.scanner) × Progress p.scanner (q.0, q.1.scanner))
      × (q.1.peeked ≡ none) in
    rw (k) (
      Reaches-map Behind (Next es p) to_event _
        (λ q h. (
          (
            ts ++ q.0 ∷ [],
            ap (λ es. es ++ token_to_event q.0 ∷ []) m ∙ sym (map-snoc ts q.0),
            h.0.0,
            h.1,
          ),
          elim h.0.1 [
            | inl a ↦ inr (inl a)
            | inr b ↦ elim b [ inl c ↦ inr (inr c) | inr d ↦ inl (end-event q.0 d) ]
          ],
        ))
        (Reaches-map (λ q. Handed ts q × Progress p.scanner q) Behind (with_scanner p)
          (next_token p.scanner) (λ q h. (h, refl)) (next_token-Progress ts p.scanner v)))

end-kind : (k : EventKind) → is_end k ≡ true → k ≡ stream_end
end-kind stream_end h = refl
end-kind stream_start h = cc
end-kind document_start h = cc
end-kind document_end h = cc
end-kind (mapping_start b) h = cc
end-kind (sequence_start b) h = cc
end-kind mapping_end h = cc
end-kind sequence_end h = cc
end-kind block_end h = cc
end-kind (key b) h = cc
end-kind value h = cc
end-kind sequence_entry h = cc
end-kind flow_entry h = cc
end-kind (scalar t b) h = cc
end-kind (anchor t) h = cc
end-kind (alias t) h = cc
end-kind (tag t) h = cc
end-kind (directive t) h = cc

end-nesting :
    (a b : Nest) (es : List Event) (e : Event)
    → is_end e.kind ≡ true
    → events_nesting a (es ++ e ∷ []) ≡ some b
    → b ≡ (0, [])
end-nesting a b [] e i h =
    let (c, k, l) = >>=-eq-some (after_event e.kind a) (λ b. events_nesting b []) h in
    ends a c b (rw (end-kind e.kind i) at k) l
  where
    ends : (a c b : Nest) → after_event stream_end a ≡ some c → some c ≡ some b → b ≡ (0, [])
    ends (zero, []) c b h k = cc
    ends (zero, x ∷ xs) c b h k = cc
    ends (suc n, xs) c b h k = cc
end-nesting a b (x ∷ es) e i h =
    let (c, k, l) = >>=-eq-some (after_event x.kind a) (λ b. events_nesting b (es ++ e ∷ [])) h in
    end-nesting c b es e i l

Parsed-nesting :
    (es : List Event) (p : Parser) → Parsed es p → (a : Nest) × (events_nesting (0, []) es ≡ some a)
Parsed-nesting es p (ts, m, v, _) =
    let (a, nests) = Valid-nesting ts p.scanner v in
    (a, ap (events_nesting (0, [])) m ∙ (events-nesting (0, []) ts ∙ nests))

turned-Turns :
    (es : List Event) (p : Parser) (m : Scan (Event × Parser))
    → Reaches (Next es p) m
    → Turns parse_step Running WholeStream characters queued (es, p) (turned es m)
turned-Turns es p (ok (e, p')) (parsed, progress) = elim (Bool-cases (is_end e.kind)) [
  | inl i ↦
      let (a, nests) = Parsed-nesting (es ++ e ∷ []) p' parsed in
      rw (i) (es, e, refl, i, nests ∙ ap some (end-nesting (0, []) a es e i nests))
  | inr i ↦
      rw (i) (parsed, elim progress [ inl j ↦ absurd (false-ne-true (sym i ∙ j)) | inr l ↦ l ])
]
turned-Turns es p (err m s) h = tt
turned-Turns es p stuck h = h

-- On every input the loop of `parse_all` ends: on some number of turns it gives an error, or the
-- events of a whole stream, of which the last is the stream's end and by which every collection is
-- closed.
pub parse_all-WholeStream :
    (input : Text) → (fuel : ℕ) × Reaches WholeStream (parse_all fuel (new_parser input))
unfolding parse_all parse_step new_parser
parse_all-WholeStream input =
    iterate-ends parse_step Running WholeStream characters queued
      (λ s h. turned-Turns s.0 s.1 (next_event s.1) (next_event-Next s.0 s.1 h))
      ([], new_parser input) ([], refl, inl (new-Fresh input), refl)
