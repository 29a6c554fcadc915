-- ===== src/Scanner/Invariant/Prefix.antt =====
-- The tokens of a whole input, taken one after the other (the loop of `parse_all` over `next_token`).
use yamlrocks.Common.{
  ℕ, zero, suc, some, [], ◌∷◌, ◌++◌, List, Text, ◌≡◌, refl, ap, subst, ◌∙◌, inl, inr, >>=-eq-some,
}
use yamlrocks.Scanner.Outcome.{Scan, ok, ◌>>=◌}
use yamlrocks.Scanner.Token.{Token, stream_end}
use yamlrocks.Scanner.State.{Scanner, new}
use yamlrocks.Scanner.Fetch.Queue.{next_token}
use yamlrocks.Scanner.Invariant.Nesting.{Nest, after, nesting, nesting-prefix}
use yamlrocks.Scanner.Invariant.Reaches.{Reaches, Reaches-bind}
use yamlrocks.Scanner.Invariant.Stream.{Valid, new-Fresh}
use yamlrocks.Scanner.Invariant.Stream.Next.{Handed, next_token-Valid}

-- `n` more tokens behind those of `e`
unfoldable pub tokens_from : ℕ → List Token → Scanner → Scan (List Token × Scanner)
tokens_from zero e s = ok (e, s)
tokens_from (suc n) e s = next_token s >>= λ p. tokens_from n (e ++ p.0 ∷ []) p.1

-- The first `n` tokens of an input.
unfoldable pub first_tokens : ℕ → Text → Scan (List Token × Scanner)
unfolding tokens_from
first_tokens n input = tokens_from n [] (new input)

tokens_from-Valid :
    (n : ℕ) (e : List Token) (s : Scanner)
    → Valid e s
    → Reaches (λ p. Valid p.0 p.1) (tokens_from n e s)
unfolding tokens_from
tokens_from-Valid zero e s v = v
tokens_from-Valid (suc n) e s v =
    Reaches-bind (Handed e) (λ p. Valid p.0 p.1) (next_token s) _
      (λ p h. tokens_from-Valid n (e ++ p.0 ∷ []) p.1 h) (next_token-Valid e s v)

-- What was handed out nests.
pub Valid-nesting :
    (e : List Token) (s : Scanner) → Valid e s → (a : Nest) × (nesting (0, []) e ≡ some a)
Valid-nesting e s (inl f) = let (a, h, _) = nesting-prefix (0, []) e s.tokens f.1.nested in (a, h)
Valid-nesting e s (inr (inl l)) =
    let (a, h, _) = nesting-prefix (0, []) e s.tokens l.nested in (a, h)
Valid-nesting e s (inr (inr c)) = let (a, h, _) = nesting-prefix (0, []) e s.tokens c.0 in (a, h)

-- Whatever the input and the number, the scanner hands out that many tokens or gives an error: no
-- loop runs out of fuel and no insertion panics. With the tokens handed out, block collections and
-- flow collections nest, each bracket closes one of its own kind, and the queue goes on from there.
pub first_tokens-Valid :
    (n : ℕ) (input : Text) → Reaches (λ p. Valid p.0 p.1) (first_tokens n input)
unfolding first_tokens
first_tokens-Valid n input = tokens_from-Valid n [] (new input) (inl (new-Fresh input))

-- Where a stream's end was handed out, every collection in front of it was closed.
pub stream_end-closed :
    (n : ℕ) (input : Text) (ts : List Token) (t : Token) (s : Scanner)
    → first_tokens n input ≡ ok (ts ++ t ∷ [], s)
    → t.kind ≡ stream_end
    → nesting (0, []) ts ≡ some (0, [])
stream_end-closed n input ts t s h k =
    let v : Valid (ts ++ t ∷ []) s =
      subst (Reaches (λ p. Valid p.0 p.1)) h (first_tokens-Valid n input) in
    let (a, whole) = Valid-nesting (ts ++ t ∷ []) s v in
    let (b, front, rest) = nesting-prefix (0, []) ts (t ∷ []) whole in
    let (c, last, _) = >>=-eq-some (after t.kind b) (λ b. nesting b []) rest in
    front ∙ ap some (ends b c (rw (k) at last))
  where
    ends : (b c : Nest) → after stream_end b ≡ some c → b ≡ (0, [])
    ends (zero, []) c h = refl
    ends (zero, b ∷ bs) c h = cc
    ends (suc n, bs) c h = cc
