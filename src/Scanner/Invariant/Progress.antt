-- ===== src/Scanner/Invariant/Progress.antt =====
-- Every token handed out leaves less to do, so that a loop over the tokens of a stream ends.
use yamlrocks.Common.{
  ℕ, zero, suc, ◌≤◌, ◌<◌, [], ◌∷◌, List, length, ◌≡◌, ◌⊎◌, refl, sym, ap, ◌∙◌, inl, inr, arith,
}
use yamlrocks.Scanner.Outcome.{Scan, ok, err, stuck, Step, done, more, iterate, next}
use yamlrocks.Scanner.Quoted.Within.{left}
use yamlrocks.Scanner.Token.{Token, stream_end}
use yamlrocks.Scanner.State.{Scanner}
use yamlrocks.Scanner.Fetch.Queue.{handed, fetched, fetch_more_tokens, ready, next_step, next_token}
use yamlrocks.Scanner.Invariant.Reaches.{Reaches, Steps, Steps-if, iterate-Reaches}
use yamlrocks.Scanner.Invariant.Stream.{Valid, size}
use yamlrocks.Scanner.Invariant.Stream.Next.{Handed, next_step-Steps, size-fuel}

-- Less to do than in the scanner `s`, or the stream's end: the characters and the queue go down
-- lexicographically.
abbrev pub Progress : Scanner → Token × Scanner → Type 0
Progress s (t, s') =
    (size s' < size s)
    ⊎ (((size s' ≤ size s) × (length s'.tokens < length s.tokens)) ⊎ (t.kind ≡ stream_end))

abbrev Since : Scanner → Scanner → Type 0
Since s0 s = (size s < size s0) ⊎ (s ≡ s0)

Reaches-both {ℓ} :
    {A : Type ℓ} (P Q : A → Type 0) (m : Scan A)
    → Reaches P m
    → Reaches Q m
    → Reaches (λ a. P a × Q a) m
Reaches-both P Q (ok a) p q = (p, q)
Reaches-both P Q (err m s) p q = tt
Reaches-both P Q stuck p q = p

Since-≤ : (s0 s : Scanner) → Since s0 s → size s ≤ size s0
Since-≤ s0 s (inl h) = omega arith
Since-≤ s0 s (inr h) = rw (h) (omega arith)

handed-Progress :
    (s0 s : Scanner) (q : List Token)
    → s.tokens ≡ q
    → Since s0 s
    → Steps (Since s0) size (Progress s0) (size s) (handed s q)
handed-Progress s0 s [] e h = inr (inr refl)
handed-Progress s0 s (t ∷ ts) e (inl h) = inl h
handed-Progress s0 s (t ∷ ts) e (inr h) =
    let n : length s0.tokens ≡ suc (length ts) = ap (λ s. length s.tokens) (sym h) ∙ ap length e in
    inr (inl (Since-≤ s0 s (inr h), omega arith))

-- A step with two invariants and two results.
Steps-both {ℓ κ} :
    {S : Type ℓ} {A : Type κ} (I J : S → Type 0) (size : S → ℕ) (P Q : A → Type 0) (n : ℕ)
    (t : Step S A)
    → Steps I size P n t
    → Steps J size Q n t
    → Steps (λ s. I s × J s) size (λ a. P a × Q a) n t
Steps-both I J size P Q n (done m) h k = Reaches-both P Q m h k
Steps-both I J size P Q n (more s) (i, l) (j, _) = ((i, j), l)

-- What a fetch lowers is lowered since any earlier state.
fetched-Since :
    (e : List Token) (s0 : Scanner) (n : ℕ) (m : Scan Scanner)
    → n ≤ size s0
    → Steps (Valid e) size (Handed e) n (fetched m)
    → Steps (Since s0) size (Progress s0) n (fetched m)
fetched-Since e s0 n (ok s) l (_, k) = (inl (omega arith), k)
fetched-Since e s0 n (err m s) l h = tt
fetched-Since e s0 n stuck l h = h

next_step-Since :
    (e : List Token) (s0 s : Scanner)
    → Valid e s × Since s0 s
    → Steps
        (λ s. Valid e s × Since s0 s)
        size
        (λ q. Handed e q × Progress s0 q)
        (size s)
        (next_step s)
unfolding next_step
next_step-Since e s0 s (v, h) =
    let whole = next_step-Steps e s v in
    Steps-both (Valid e) (Since s0) size (Handed e) (Progress s0) (size s) (next_step s) whole (
      Steps-if (Since s0) size (Progress s0) (size s) (ready s) (handed s s.tokens)
        (fetched (fetch_more_tokens s)) (λ _. handed-Progress s0 s s.tokens refl h)
        (λ r. fetched-Since e s0 (size s) (fetch_more_tokens s) (Since-≤ s0 s h) (rw (r) at whole)))

pub next_token-Progress :
    (e : List Token) (s : Scanner)
    → Valid e s
    → Reaches (λ q. Handed e q × Progress s q) (next_token s)
unfolding next_token
next_token-Progress e s v =
    iterate-Reaches (λ s'. Valid e s' × Since s s') size (λ q. Handed e q × Progress s q) next_step
      (next_step-Since e s) (suc (suc (suc (suc (left s.reader))))) s (v, inr refl) (size-fuel s)

-- A loop whose turns lower two sizes lexicographically ends on some fuel.
module _ {ℓ κ} {S : Type ℓ} {A : Type κ} (step : S → Step S A) (I : S → Type 0) (P : A → Type 0)
    (first second : S → ℕ) where
  abbrev pub Lower : S → S → Type 0
  Lower s s' = (first s' < first s) ⊎ ((first s' ≤ first s) × (second s' < second s))

  abbrev pub Turns : S → Step S A → Type 0
  Turns s (done m) = Reaches P m
  Turns s (more s') = I s' × Lower s s'

  turn-ends :
      (s : S) (t : Step S A)
      → Turns s t
      → ((s' : S) → I s' → Lower s s' → (fuel : ℕ) × Reaches P (iterate step fuel s'))
      → (fuel : ℕ) × Reaches P (next (iterate step fuel) t)
  turn-ends s (done m) h k = (0, h)
  turn-ends s (more s') h k = k s' h.0 h.1

  second-ends :
      (a b : ℕ)
      → ((s : S) → I s → Turns s (step s))
      → ((s : S) → first s < a → I s → (fuel : ℕ) × Reaches P (iterate step fuel s))
      → (s : S) → first s < suc a
      → second s < b
      → I s
      → (fuel : ℕ) × Reaches P (iterate step fuel s)
  second-ends a zero turns outer s l k i = absurd (omega arith)
  second-ends a (suc b) turns outer s l k i =
      let (fuel, h) = turn-ends s (step s) (turns s i) (λ s' i' lower. elim lower [
        | inl f ↦ outer s' (omega arith) i'
        | inr g ↦ second-ends a b turns outer s' (omega (arith, g.0)) (omega (arith, g.1)) i'
      ]) in
      (suc fuel, h)

  first-ends :
      (a : ℕ)
      → ((s : S) → I s → Turns s (step s))
      → (s : S) → first s < a
      → I s
      → (fuel : ℕ) × Reaches P (iterate step fuel s)
  first-ends zero turns s l i = absurd (omega arith)
  first-ends (suc a) turns s l i =
      second-ends a (suc (second s)) turns (first-ends a turns) s l (omega arith) i

  pub iterate-ends :
      ((s : S) → I s → Turns s (step s))
      → (s : S) → I s
      → (fuel : ℕ) × Reaches P (iterate step fuel s)
  iterate-ends turns s i = first-ends (suc (first s)) turns s (omega arith) i
