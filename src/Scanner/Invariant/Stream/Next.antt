-- ===== src/Scanner/Invariant/Stream/Next.antt =====
-- `next_token` gives a token or an error, and keeps the invariant.
use yamlrocks.Common.{
  suc, ℕ, ◌+◌, ◌<◌, Bool, true, false, false-ne-true, Option, none, some, [], ◌∷◌, ◌++◌, List, ◌≡◌,
  ◌⊎◌, refl, sym, ap, subst, ◌∙◌, inl, inr, arith, append_assoc, append-nil,
}
use yamlrocks.Scanner.Outcome.{Scan, ok, err, stuck}
use yamlrocks.Scanner.Quoted.Within.{left}
use yamlrocks.Scanner.Token.{Token, stream_end, token}
use yamlrocks.Scanner.State.{Scanner, SimpleKey}
use yamlrocks.Scanner.Fetch.Queue.{
  fetch_more_tokens, handed, waiting, ready, fetched, next_step, next_token,
}
use yamlrocks.Scanner.Invariant.Nesting.{nesting, nesting-push}
use yamlrocks.Scanner.Invariant.Live.{core, KeyAt, Live}
use yamlrocks.Scanner.Invariant.Reaches.{Reaches, Steps, Steps-if, iterate-Reaches}
use yamlrocks.Scanner.Invariant.Stream.{
  Closed, Fresh, Valid, flag, size, Fetched, fetch_more-Fetched,
}

-- A token that stands in front of the queue is handed out.
Live-pop :
    (e : List Token) (t : Token) (ts : List Token) (s : Scanner)
    → s.simple_key ≡ none
    → s.tokens ≡ t ∷ ts
    → Live e (core s)
    → Live (e ++ t ∷ []) (core (record s { tokens = ts }))
Live-pop e t ts s k q h = record {
  nested = ap (nesting (0, [])) (append_assoc e (t ∷ []) ts ∙ ap (λ q. e ++ q) (sym q)) ∙ h.nested;
  level = h.level;
  bounded = h.bounded;
  levels = h.levels;
  key = subst (KeyAt (e ++ t ∷ []) ts) (sym k) tt;
  running = h.running;
}

-- A token handed out, and the scanner behind it.
abbrev pub Handed : List Token → Token × Scanner → Type 0
Handed e (t, s) = Valid (e ++ t ∷ []) s

waiting-parts :
    (k : Option SimpleKey) (q : List Token)
    → waiting k q ≡ true
    → (k ≡ none) × ((t : Token) × (ts : List Token) × (q ≡ t ∷ ts))
waiting-parts none [] w = cc
waiting-parts none (t ∷ ts) w = (refl, (t, ts, refl))
waiting-parts (some k) q w = cc

pop-Handed :
    (e : List Token) (s : Scanner)
    → Fresh e s ⊎ Live e (core s)
    → waiting s.simple_key s.tokens ≡ true
    → Steps (Valid e) size (Handed e) (size s) (handed s s.tokens)
pop-Handed e s v w =
    let (k, (t, ts, q)) = waiting-parts s.simple_key s.tokens w in
    subst (λ q. Steps (Valid e) size (Handed e) (size s) (handed s q)) (sym q) (popped t ts k q v)
  where
    popped :
        (t : Token) (ts : List Token)
        → s.simple_key ≡ none
        → s.tokens ≡ t ∷ ts
        → Fresh e s ⊎ Live e (core s)
        → Valid (e ++ t ∷ []) (record s { tokens = ts })
    popped t ts k q (inl f) =
        inl (f.0, Live-pop e t ts (record s { stream_started = true }) k q f.1)
    popped t ts k q (inr h) = inr (inl (Live-pop e t ts s k q h))

end-Handed :
    (e : List Token) (s : Scanner)
    → Closed e s
    → Steps (Valid e) size (Handed e) (size s) (handed s s.tokens)
end-Handed e s (n, a, b) = closed_queue s.tokens refl
  where
    closed_queue :
        (q : List Token) → s.tokens ≡ q → Steps (Valid e) size (Handed e) (size s) (handed s q)
    closed_queue [] q =
        let t = token stream_end s.reader.pos in
        inr (
          inr (
            ap (λ q. nesting (0, []) ((e ++ t ∷ []) ++ q)) q
                ∙ (ap (nesting (0, [])) (append-nil (e ++ t ∷ []))
                    ∙ nesting-push (0, []) e [] t (ap (λ q. nesting (0, []) (e ++ q)) (sym q) ∙ n)
                        refl),
            a,
            b,
          ))
    closed_queue (t ∷ ts) q = inr (
        inr (
          ap (nesting (0, [])) (append_assoc e (t ∷ []) ts)
              ∙ (ap (λ q. nesting (0, []) (e ++ q)) (sym q) ∙ n),
          a,
          b,
        ))

fetched-Steps :
    (e : List Token) (n : ℕ) (m : Scan Scanner)
    → Reaches (Fetched e n) m
    → Steps (Valid e) size (Handed e) n (fetched m)
fetched-Steps e n (ok s) h = h
fetched-Steps e n (err m s) h = tt
fetched-Steps e n stuck h = h

pub next_step-Steps :
    (e : List Token) (s : Scanner)
    → Valid e s
    → Steps (Valid e) size (Handed e) (size s) (next_step s)
unfolding next_step
next_step-Steps e s v =
    Steps-if (Valid e) size (Handed e) (size s) (ready s) (handed s s.tokens)
      (fetched (fetch_more_tokens s)) (hand v) (fetch v)
  where
    hand : Valid e s → ready s ≡ true → Steps (Valid e) size (Handed e) (size s) (handed s s.tokens)
    hand (inl f) r = pop-Handed e s (inl f) (rw (f.1.running.1) at r)
    hand (inr (inl h)) r = pop-Handed e s (inr h) (rw (h.running.1) at r)
    hand (inr (inr c)) r = end-Handed e s c

    fetch :
        Valid e s
        → ready s ≡ false
        → Steps (Valid e) size (Handed e) (size s) (fetched (fetch_more_tokens s))
    fetch (inl f) r = fetched-Steps e (size s) _ (fetch_more-Fetched e s (inl f))
    fetch (inr (inl h)) r = fetched-Steps e (size s) _ (fetch_more-Fetched e s (inr h))
    fetch (inr (inr c)) r = absurd (false-ne-true (sym (rw (c.2) at r)))

pub size-fuel : (s : Scanner) → size s < suc (suc (suc (suc (left s.reader))))
size-fuel s = bound s.stream_started s.stream_ended
  where
    bound : (a b : Bool) → left s.reader + (flag a + flag b) < suc (suc (suc (suc (left s.reader))))
    bound true true = omega arith
    bound true false = omega arith
    bound false true = omega arith
    bound false false = omega arith

-- From a scanner that has handed out the tokens `e`, `next_token` ends with a token or an error.
-- With it the tokens handed out nest as before, and no step of it panics.
pub next_token-Valid :
    (e : List Token) (s : Scanner) → Valid e s → Reaches (Handed e) (next_token s)
unfolding next_token
next_token-Valid e s v =
    iterate-Reaches (Valid e) size (Handed e) next_step (next_step-Steps e)
      (suc (suc (suc (suc (left s.reader))))) s v (size-fuel s)
