-- ===== src/Common/Digits.antt =====
-- Digits of a radix: the standard library's `char::to_digit` and `from_str_radix`, and the value
-- that a text denotes positionally, which is defined without them.
pub mod Unsigned
use native.Mathlib.Nat.{pow-zero, pow-suc, one-le-pow}
use Prim.Native.Nat.{ℕ, ◌+◌, ◌-◌, ◌*◌, ◌^◌, ◌≤◌, ◌<◌}
use mathlib.Core.Bool.{Bool, true, false}
use mathlib.Core.List.{[], ◌∷◌}
use mathlib.Core.Logic.{inl, inr, ◌≢◌}
use mathlib.Core.Option.{Option, none, some}
use mathlib.Core.Path.{◌≡◌, refl, sym, ap, ◌∙◌}
use native.Mathlib.Omega.{arith}
use yamlrocks.Common.Int.{ℤ, pos, minus, i64_max}
use yamlrocks.Common.Lists.{length, all}
use yamlrocks.Common.Tests.{
  ltb, leb, ◌==◌, if◌then◌else◌, between, ◌>>=◌, leb→le, le→leb, Bool-cases, Option-cases,
  >>=_assoc, none-ne-some, >>=-eq-some, >>=_assoc,
}
use yamlrocks.Common.Chars.{Text, starts_with}

-- `b.is_ascii_digit()`
abbrev pub is_digit : ℕ → Bool
is_digit c = between b'0' b'9' c

-- The value of an alphanumeric character as a digit, whatever the radix.
unfoldable pub digit_value : ℕ → Option ℕ
digit_value c =
    if between b'0' b'9' c
    then some (c - b'0')
    else if between b'a' b'z' c
    then some (c - b'a' + 10)
    else if between b'A' b'Z' c
    then some (c - b'A' + 10)
    else none

-- `ch.to_digit(radix)`
unfoldable pub to_digit : ℕ → ℕ → Option ℕ
unfolding digit_value
to_digit radix c = do d ← digit_value c; if ltb d radix then some d else none

-- The loop of `from_str_radix` over the digits behind the sign. A product that overflows makes the
-- sum behind it too large as well, so one test stands for `checked_mul` and `checked_add`.
unfoldable pub accumulate : ℕ → ℕ → ℕ → Text → Option ℕ
accumulate limit radix acc [] = some acc
accumulate limit radix acc (c ∷ cs) = do
  d ← to_digit radix c
  let next = acc * radix + d
  if leb next limit then accumulate limit radix next cs else none

-- `i64::from_str_radix(body, radix).ok()`: one sign is accepted, and an empty text is not.
unfoldable pub from_str_radix : Text → ℕ → Option ℤ
unfolding accumulate
from_str_radix [] radix = none
from_str_radix (c ∷ []) radix =
    if c == b'+'
    then none
    else if c == b'-'
    then none
    else do n ← accumulate i64_max radix 0 (c ∷ []); some (pos n)
from_str_radix (c ∷ c' ∷ cs) radix =
    if c == b'+'
    then (do n ← accumulate i64_max radix 0 (c' ∷ cs); some (pos n))
    else if c == b'-'
    then (do n ← accumulate (i64_max + 1) radix 0 (c' ∷ cs); some (minus n))
    else do n ← accumulate i64_max radix 0 (c ∷ c' ∷ cs); some (pos n)

-- `text.parse().ok()` into an unsigned type whose largest value is `limit`: a `+` is accepted in
-- front of at least one digit.
unfoldable pub from_str_unsigned : ℕ → Text → Option ℕ
unfolding accumulate
from_str_unsigned limit [] = none
from_str_unsigned limit (c ∷ []) = if c == b'+' then none else accumulate limit 10 0 (c ∷ [])
from_str_unsigned limit (c ∷ c' ∷ cs) =
    if c == b'+' then accumulate limit 10 0 (c' ∷ cs) else accumulate limit 10 0 (c ∷ c' ∷ cs)

-- The value of a text as a numeral: the sum of its digits, each times its place's power.
abbrev pub place_value : ℕ → Text → Option ℕ
place_value radix [] = some 0
place_value radix (c ∷ cs) = do
  d ← to_digit radix c
  rest ← place_value radix cs
  some (d * radix ^ length cs + rest)

-- A number that passes a limit is no result.
abbrev pub within : ℕ → ℕ → Option ℕ
within limit n = if leb n limit then some n else none

within-eq-some : (limit n m : ℕ) → within limit n ≡ some m → (n ≡ m) × (n ≤ limit)
within-eq-some limit n m h = ground arith

regroup :
    (acc radix d power v : ℕ)
    → (acc * radix + d) * power + v ≡ acc * (power * radix) + (d * power + v)
regroup acc radix d power v = omega arith

within-past :
    (limit next power v : ℕ) → limit < next → 0 < power → within limit (next * power + v) ≡ none
within-past limit next power v h p =
    let far : limit < next * power + v = grind arith in ground arith

accumulate_step :
    (limit radix acc d power : ℕ) (rest later : Option ℕ)
    → 0 < power
    → (acc * radix + d ≤ limit
        → later ≡ (rest >>= λ v. within limit ((acc * radix + d) * power + v)))
    → (if leb (acc * radix + d) limit then later else none)
      ≡ (rest >>= λ v. within limit (acc * (power * radix) + (d * power + v)))
accumulate_step limit radix acc d power none later p ih = ground (arith, ih)
accumulate_step limit radix acc d power (some v) later p ih =
    elim (Bool-cases (leb (acc * radix + d) limit)) [
      | inl fits ↦ rw (fits, ih (leb→le _ _ fits)) (ap (within limit) (regroup acc radix d power v))
      | inr past ↦ rw past (
          sym (
            ap (within limit) (sym (regroup acc radix d power v))
            ∙ within-past limit (acc * radix + d) power v (ground arith) p))
    ]

-- The loop answers the positional value where that fits, and nothing otherwise.
pub accumulate-place_value :
    (limit radix acc : ℕ) (s : Text)
    → 0 < radix
    → acc ≤ limit
    → accumulate limit radix acc s
      ≡ (place_value radix s >>= λ v. within limit (acc * radix ^ length s + v))
unfolding accumulate
accumulate-place_value limit radix acc [] h le = rw (pow-zero radix) (ground arith)
accumulate-place_value limit radix acc (c ∷ cs) h le = elim (Option-cases (to_digit radix c)) [
  | inl e ↦ rw e
  | inr (d, e) ↦
      rw (e, pow-suc)
        (accumulate_step limit radix acc d (radix ^ length cs) (place_value radix cs) _
            (one-le-pow (length cs) radix h)
            (λ fits. accumulate-place_value limit radix (acc * radix + d) cs h fits)
          ∙ sym (>>=_assoc (place_value radix cs) _ _))
]

accumulate-zero :
    (limit radix : ℕ) (s : Text)
    → 0 < radix
    → accumulate limit radix 0 s ≡ (place_value radix s >>= within limit)
accumulate-zero limit radix s h = elim (Option-cases (place_value radix s)) [
  | inl e ↦ accumulate-place_value limit radix 0 s h (omega arith) ∙ rw e
  | inr (v, e) ↦
      accumulate-place_value limit radix 0 s h (omega arith)
      ∙ rw e (ap (within limit) (omega arith))
]

-- A text of digits and nothing else, at least one.
abbrev pub IsNumeral : ℕ → Text → ℕ → Type 0
IsNumeral radix s n = (s ≢ []) × (place_value radix s ≡ some n)

pub test_head : (k c : ℕ) (cs : Text) → starts_with (c ∷ cs) (k ∷ []) ≡ false → (c == k) ≡ false
test_head k c cs h = ground arith

-- A body that does not start with a sign is read by its positional value.
pub from_str_radix-place_value :
    (s : Text) (radix : ℕ)
    → 0 < radix
    → s ≢ []
    → starts_with s (b'+' ∷ []) ≡ false
    → starts_with s (b'-' ∷ []) ≡ false
    → from_str_radix s radix ≡ (place_value radix s >>= within i64_max >>= λ n. some (pos n))
unfolding from_str_radix
from_str_radix-place_value [] radix h ne p m = absurd (ne refl)
from_str_radix-place_value (c ∷ []) radix h ne p m =
    rw (test_head _ c [] p, test_head _ c [] m, accumulate-zero i64_max radix (c ∷ []) h)
from_str_radix-place_value (c ∷ c' ∷ cs) radix h ne p m = rw (
  test_head _ c (c' ∷ cs) p,
  test_head _ c (c' ∷ cs) m,
  accumulate-zero i64_max radix (c ∷ c' ∷ cs) h,
)

pub place_value-head :
    (radix c : ℕ) (cs : Text) (n : ℕ)
    → place_value radix (c ∷ cs) ≡ some n
    → (d : ℕ) × (to_digit radix c ≡ some d)
place_value-head radix c cs n h = elim (Option-cases (to_digit radix c)) [
  | inl e ↦ absurd (none-ne-some (rw e at h))
  | inr (d, e) ↦ (d, e)
]

-- A sign is no digit.
pub numeral-unsigned :
    (radix : ℕ) (s : Text) (n : ℕ)
    → place_value radix s ≡ some n
    → (starts_with s (b'+' ∷ []) ≡ false) × (starts_with s (b'-' ∷ []) ≡ false)
unfolding to_digit
numeral-unsigned radix [] n h = (refl, refl)
numeral-unsigned radix (c ∷ cs) n h =
    let (d, e) = place_value-head radix c cs n h in (ground arith, ground arith)

-- A loop that answers has read a numeral that fits.
pub from_str_radix-eq-some :
    (s : Text) (radix : ℕ) {z : ℤ}
    → 0 < radix
    → starts_with s (b'+' ∷ []) ≡ false
    → starts_with s (b'-' ∷ []) ≡ false
    → from_str_radix s radix ≡ some z
    → (n : ℕ) × IsNumeral radix s n × (n ≤ i64_max) × (z ≡ pos n)
from_str_radix-eq-some [] radix h p m e = absurd (unfold from_str_radix in cc e)
from_str_radix-eq-some (c ∷ cs) radix h p m e =
    let ne : (c ∷ cs) ≢ [] = λ q. cc q in
    let e' = sym (from_str_radix-place_value (c ∷ cs) radix h ne p m) ∙ e in
    let (n, r, t) = >>=-eq-some (place_value radix (c ∷ cs) >>= within i64_max) _ e' in
    let (v, q, w) = >>=-eq-some (place_value radix (c ∷ cs)) (within i64_max) r in
    let (same, fits) = within-eq-some i64_max v n w in (v, (ne, q), fits, cc)

-- Digits alone always have a value.
pub place_value-total :
    (radix : ℕ) (p : ℕ → Bool) (s : Text)
    → ((c : ℕ) → p c ≡ true → (d : ℕ) × (to_digit radix c ≡ some d))
    → all p s ≡ true
    → (n : ℕ) × (place_value radix s ≡ some n)
place_value-total radix p [] h e = (0, refl)
place_value-total radix p (c ∷ cs) h e =
    let (d, q) = h c (ground arith) in
    let (n, r) = place_value-total radix p cs h (ground arith) in
    (d * radix ^ length cs + n, rw (q, r))

-- A text that has a value holds digits only.
pub place_value-all :
    (radix : ℕ) (p : ℕ → Bool) (s : Text) {n : ℕ}
    → ((c d : ℕ) → to_digit radix c ≡ some d → p c ≡ true)
    → place_value radix s ≡ some n
    → all p s ≡ true
place_value-all radix p [] h e = refl
place_value-all radix p (c ∷ cs) {n} h e =
    let (d, q) = place_value-head radix c cs n e in
    let (d', _, rest) = >>=-eq-some (to_digit radix c) _ e in
    let (m, r, _) = >>=-eq-some (place_value radix cs) _ rest in
    rw (h c d q) (place_value-all radix p cs h r)

-- The parts of a numeral's value.
pub place_value-cons :
    (radix c : ℕ) (cs : Text) {n : ℕ}
    → place_value radix (c ∷ cs) ≡ some n
    → (d m : ℕ) × (to_digit radix c ≡ some d)
      × (place_value radix cs ≡ some m)
      × (n ≡ d * radix ^ length cs + m)
place_value-cons radix c cs {n} h =
    let (d, e, rest) = >>=-eq-some (to_digit radix c) _ h in
    let (m, r, s) = >>=-eq-some (place_value radix cs) _ rest in (d, m, e, r, cc)
