-- ===== src/Scanner/Invariant/Reaches.antt =====
-- What a scan gives: a value with a property, or an error, but never a loop out of fuel or a panic.
use yamlrocks.Common.{
  ℕ, zero, suc, ◌≤◌, ◌<◌, length, Bool, true, false, ◌≡◌, refl, arith, if◌then◌else◌,
}
use yamlrocks.Scanner.Reader.{Span, Reader}
use yamlrocks.Scanner.Outcome.{
  Message, Scan, ok, err, stuck, Step, done, more, iterate, next, map, ◌>>=◌, Within, Lowers,
  iterate-Within,
}

abbrev pub Reaches {ℓ} : {A : Type ℓ} → (A → Type 0) → Scan A → Type 0
Reaches P (ok a) = P a
Reaches P (err m s) = Unit
Reaches P stuck = ⊥

pub Reaches-bind {ℓ κ} :
    {A : Type ℓ} {B : Type κ} (P : A → Type 0) (Q : B → Type 0) (m : Scan A) (f : A → Scan B)
    → ((a : A) → P a → Reaches Q (f a))
    → Reaches P m
    → Reaches Q (m >>= f)
Reaches-bind P Q (ok a) f k h = k a h
Reaches-bind P Q (err m s) f k h = tt
Reaches-bind P Q stuck f k h = absurd h

pub Reaches-map {ℓ κ} :
    {A : Type ℓ} {B : Type κ} (P : A → Type 0) (Q : B → Type 0) (f : A → B) (m : Scan A)
    → ((a : A) → P a → Q (f a))
    → Reaches P m
    → Reaches Q (map f m)
Reaches-map P Q f (ok a) k h = k a h
Reaches-map P Q f (err m s) k h = tt
Reaches-map P Q f stuck k h = absurd h

pub Reaches-if {ℓ} :
    {A : Type ℓ} (P : A → Type 0) (b : Bool) (m k : Scan A)
    → (b ≡ true → Reaches P m)
    → (b ≡ false → Reaches P k)
    → Reaches P (if b then m else k)
Reaches-if P true m k hm hk = hm refl
Reaches-if P false m k hm hk = hk refl

-- A guard: an error, or what comes behind.
pub Reaches-guard {ℓ} :
    {A : Type ℓ} (P : A → Type 0) (b : Bool) (e : Message) (at : Span) (k : Scan A)
    → (b ≡ false → Reaches P k)
    → Reaches P (if b then err e at else k)
Reaches-guard P true e at k hk = tt
Reaches-guard P false e at k hk = hk refl

pub Reaches-weaken {ℓ} :
    {A : Type ℓ} (P Q : A → Type 0) (m : Scan A) → ((a : A) → P a → Q a) → Reaches P m → Reaches Q m
Reaches-weaken P Q (ok a) k h = k a h
Reaches-weaken P Q (err m s) k h = tt
Reaches-weaken P Q stuck k h = h

-- A step that ends with such a result, or goes on in a state with an invariant and a lower size.
abbrev pub Steps {ℓ κ} :
    {S : Type ℓ} {A : Type κ} → (S → Type 0) → (S → ℕ) → (A → Type 0) → ℕ → Step S A → Type 0
Steps I size P n (done m) = Reaches P m
Steps I size P n (more s) = I s × (size s < n)

pub Steps-if {ℓ κ} :
    {S : Type ℓ} {A : Type κ} (I : S → Type 0) (size : S → ℕ) (P : A → Type 0) (n : ℕ) (b : Bool)
    (t u : Step S A)
    → (b ≡ true → Steps I size P n t)
    → (b ≡ false → Steps I size P n u)
    → Steps I size P n (if b then t else u)
Steps-if I size P n true t u ht hu = ht refl
Steps-if I size P n false t u ht hu = hu refl

next-Reaches {ℓ κ} :
    {S : Type ℓ} {A : Type κ} (I : S → Type 0) (size : S → ℕ) (P : A → Type 0) (n : ℕ)
    (k : S → Scan A) (t : Step S A)
    → Steps I size P n t
    → ((s : S) → I s → size s < n → Reaches P (k s))
    → Reaches P (next k t)
next-Reaches I size P n k (done a) l h = l
next-Reaches I size P n k (more s) (i, l) h = h s i l

-- When every step keeps an invariant and lowers the size, fuel above the size is enough.
pub iterate-Reaches {ℓ κ} :
    {S : Type ℓ} {A : Type κ} (I : S → Type 0) (size : S → ℕ) (P : A → Type 0) (step : S → Step S A)
    → ((s : S) → I s → Steps I size P (size s) (step s))
    → (fuel : ℕ) (s : S) → I s
    → size s < fuel
    → Reaches P (iterate step fuel s)
iterate-Reaches I size P step steps zero s i l = absurd (omega arith)
iterate-Reaches I size P step steps (suc fuel) s i l =
    next-Reaches I size P (size s) (iterate step fuel) (step s) (steps s i)
      (λ s' i' l'. iterate-Reaches I size P step steps fuel s' i' (omega arith))

pub Within-Reaches {ℓ} :
    {A : Type ℓ} (k n : ℕ) (m : Scan (A × Reader))
    → k < n
    → Within k m
    → Reaches (λ p. length p.1.rest < n) m
Within-Reaches k n (ok (a, r)) l w = omega arith
Within-Reaches k n (err m s) l w = tt
Within-Reaches k n stuck l w = w

-- The two ways to bound what is left.
pub Within-at_most {ℓ} :
    {A : Type ℓ} (n : ℕ) (m : Scan (A × Reader)) → Within n m → Reaches (λ p. length p.1.rest ≤ n) m
Within-at_most n (ok (a, r)) w = w
Within-at_most n (err m s) w = tt
Within-at_most n stuck w = w

abbrev pub Takes {ℓ κ} : {S : Type ℓ} {A : Type κ} → (S → ℕ) → ℕ → Step S (A × Reader) → Type 0
Takes size n t = Steps (λ _. Unit) size (λ p. length p.1.rest < n) n t

pub Takes-Lowers {ℓ κ} :
    {S : Type ℓ} {A : Type κ} (size : S → ℕ) (n : ℕ) (t : Step S (A × Reader))
    → Takes size n t
    → Lowers size n t
Takes-Lowers size n (done (ok (a, r))) h = omega arith
Takes-Lowers size n (done (err m s)) h = tt
Takes-Lowers size n (done stuck) h = h
Takes-Lowers size n (more s) h = h.1

-- A loop whose turns lower a size, and whose first turn takes a character, takes one.
pub iterate-Takes {ℓ κ} :
    {S : Type ℓ} {A : Type κ} (step : S → Step S (A × Reader)) (size : S → ℕ) (n : ℕ)
    → ((s : S) → Lowers size (size s) (step s))
    → (fuel : ℕ) (s : S) → Takes size n (step s)
    → n ≤ fuel
    → Reaches (λ p. length p.1.rest < n) (iterate step (suc fuel) s)
iterate-Takes step size n lowers fuel s t l =
    next-Reaches (λ _. Unit) size (λ p. length p.1.rest < n) n (iterate step fuel) (step s) t
      (λ s' _ k.
        Within-Reaches (size s') n (iterate step fuel s') k
          (iterate-Within step size lowers fuel s' (omega arith)))
