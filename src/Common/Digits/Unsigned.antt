-- ===== src/Common/Digits/Unsigned.antt =====
-- Reading unsigned decimal numbers: what is read, and its bound.
use native.Mathlib.Nat.{pow-zero, pow-suc}
use Prim.Native.Nat.{ℕ, ◌+◌, ◌*◌, ◌^◌, ◌≤◌, ◌<◌}
use mathlib.Core.Bool.{true}
use mathlib.Core.List.{[], ◌∷◌}
use mathlib.Core.Logic.{inl, inr}
use mathlib.Core.Option.{some}
use mathlib.Core.Path.{◌≡◌, refl}
use native.Mathlib.Omega.{arith}
use yamlrocks.Common.Lists.{length}
use yamlrocks.Common.Tests.{leb, ◌==◌, le→leb, Bool-cases, none-ne-some, >>=-eq-some}
use yamlrocks.Common.Chars.{Text}
use yamlrocks.Common.Digits.{
  is_digit, to_digit, accumulate, from_str_unsigned, IsNumeral, accumulate-zero, numeral-unsigned,
  test_head,
}

pub to_digit-digit : (c d : ℕ) → to_digit 10 c ≡ some d → is_digit c ≡ true
unfolding to_digit
to_digit-digit c d h = ground arith

-- A numeral that fits is read by its value.
pub from_str_unsigned-IsNumeral :
    (limit : ℕ) (s : Text) {n : ℕ}
    → IsNumeral 10 s n
    → n ≤ limit
    → from_str_unsigned limit s ≡ some n
unfolding from_str_unsigned
from_str_unsigned-IsNumeral limit [] (ne, e) le = absurd (ne refl)
from_str_unsigned-IsNumeral limit (c ∷ []) {n} (ne, e) le = rw (
  test_head b'+' c [] (numeral-unsigned 10 (c ∷ []) n e).0,
  accumulate-zero limit 10 (c ∷ []) (omega arith),
  e,
  le→leb n limit le,
)
from_str_unsigned-IsNumeral limit (c ∷ c' ∷ cs) {n} (ne, e) le = rw (
  test_head b'+' c (c' ∷ cs) (numeral-unsigned 10 (c ∷ c' ∷ cs) n e).0,
  accumulate-zero limit 10 (c ∷ c' ∷ cs) (omega arith),
  e,
  le→leb n limit le,
)

to_digit-lt : (radix c d : ℕ) → to_digit radix c ≡ some d → d < radix
unfolding to_digit
to_digit-lt radix c d h = ground arith

mul_mono : (a b power : ℕ) → a ≤ b → a * power ≤ b * power
mul_mono a b power h = grind arith

lt_mul :
    (next acc power n : ℕ)
    → n < (next + 1) * power
    → next + 1 ≤ (acc + 1) * 10
    → n < (acc + 1) * (power * 10)
lt_mul next acc power n h le = omega (arith, mul_mono (next + 1) ((acc + 1) * 10) power le)

-- A text of `k` digits has a value below the power `k`.
accumulate-lt :
    (limit acc : ℕ) (s : Text) (n : ℕ)
    → accumulate limit 10 acc s ≡ some n
    → n < (acc + 1) * 10 ^ length s
unfolding accumulate
accumulate-lt limit acc [] n h = rw (pow-zero 10) (ground arith)
accumulate-lt limit acc (c ∷ cs) n h =
    let (d, e, rest) = >>=-eq-some (to_digit 10 c) _ h in
    elim (Bool-cases (leb (acc * 10 + d) limit)) [
      | inl fits ↦ rw pow-suc (
          lt_mul (acc * 10 + d) acc (10 ^ length cs) n
            (accumulate-lt limit (acc * 10 + d) cs n (rw fits at rest))
            (omega (arith, to_digit-lt 10 c d e)))
      | inr past ↦ absurd (none-ne-some (rw past at rest))
    ]

pub from_str_unsigned-lt :
    (limit : ℕ) (s : Text) (n : ℕ) → from_str_unsigned limit s ≡ some n → n < 10 ^ length s
unfolding from_str_unsigned
from_str_unsigned-lt limit [] n h = absurd (none-ne-some h)
from_str_unsigned-lt limit (c ∷ []) n h = elim (Bool-cases (c == b'+')) [
  | inl p ↦ absurd (none-ne-some (rw p at h))
  | inr p ↦ omega (arith, accumulate-lt limit 0 (c ∷ []) n (rw p at h))
]
from_str_unsigned-lt limit (c ∷ c' ∷ cs) n h = elim (Bool-cases (c == b'+')) [
  | inl p ↦ rw pow-suc (omega (arith, accumulate-lt limit 0 (c' ∷ cs) n (rw p at h)))
  | inr p ↦ omega (arith, accumulate-lt limit 0 (c ∷ c' ∷ cs) n (rw p at h))
]
