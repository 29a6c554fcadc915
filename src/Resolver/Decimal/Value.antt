-- ===== src/Resolver/Decimal/Value.antt =====
-- The decimal text of a numeral of another radix denotes the same number, with no leading zero.
use mathlib.Core.List.{concat-ne-nil}
use native.Mathlib.Nat.{pow-zero, pow-suc}
use yamlrocks.Common.{
  ℕ, zero, suc, ◌+◌, ◌*◌, ◌/◌, ◌^◌, ◌<◌, true, not, ◌≡◌, refl, sym, ap, ◌∙◌, ◌⊎◌, inl, inr, some,
  List, [], ◌∷◌, Text, length, arith, ◌==◌, subst,
}
use yamlrocks.Common.Decimal.{
  little_value, AllBelow10, top_nonzero, shown, little_value-push_carry, push_carry-below,
  top_nonzero-step, top_nonzero-push_carry, place_value-shown, shown-ne-nil, shown-top_nonzero,
  IsCanonicalDecimal,
}
use yamlrocks.Common.Digits.{place_value, place_value-cons}
use yamlrocks.Resolver.Decimal.{mul_add, digit_or_zero, decimal_digits, radix_to_decimal}

little_value-mul_add :
    (radix carry : ℕ) (ds : List ℕ)
    → little_value (mul_add radix carry ds) ≡ little_value ds * radix + carry
unfolding mul_add
little_value-mul_add radix carry [] =
    little_value-push_carry carry carry (omega arith) ∙ omega arith
little_value-mul_add radix carry (d ∷ ds) =
    omega (arith, little_value-mul_add radix ((d * radix + carry) / 10) ds)

mul_add-below : (radix carry : ℕ) (ds : List ℕ) → AllBelow10 (mul_add radix carry ds)
unfolding mul_add
mul_add-below radix carry [] = push_carry-below carry carry
mul_add-below radix carry (d ∷ ds) =
    (omega arith, mul_add-below radix ((d * radix + carry) / 10) ds)

pos_step : (radix d carry : ℕ) → 0 < radix → not (d == 0) ≡ true → 0 < d * radix + carry
pos_step radix d carry p h = let q : 0 < d = ground arith in grind arith

mul_add-top_nonzero :
    (radix carry : ℕ) (ds : List ℕ)
    → 0 < radix
    → top_nonzero ds ≡ true
    → top_nonzero (mul_add radix carry ds) ≡ true
unfolding mul_add
mul_add-top_nonzero radix carry [] p h = cc
mul_add-top_nonzero radix carry (d ∷ []) p h =
    top_nonzero-step ((d * radix + carry) / 10) (d * radix + carry) (pos_step radix d carry p h)
      (λ q. top_nonzero-push_carry _ _ q (omega arith))
mul_add-top_nonzero radix carry (d ∷ d' ∷ ds) p h =
    mul_add-top_nonzero radix ((d * radix + carry) / 10) (d' ∷ ds) p h

-- What the accumulator is at each round: zero, or a numeral with no leading zero.
IsCanonical : List ℕ → Type 0
IsCanonical ds = (ds ≡ 0 ∷ []) ⊎ (top_nonzero ds ≡ true)

mul_add-IsCanonical :
    (radix carry : ℕ) (ds : List ℕ)
    → 0 < radix
    → IsCanonical ds
    → IsCanonical (mul_add radix carry ds)
unfolding IsCanonical mul_add
mul_add-IsCanonical radix carry ds p (inr h) = inr (mul_add-top_nonzero radix carry ds p h)
mul_add-IsCanonical radix zero ds p (inl e) =
    let z : 0 * radix + 0 ≡ 0 = omega arith in inl (rw (e, z))
mul_add-IsCanonical radix (suc c) ds p (inl e) =
    let z : 0 * radix + suc c ≡ suc c = omega arith in
    inr (
      rw (e, z)
        (top_nonzero-step (suc c / 10) (suc c) (omega arith)
          (λ q. top_nonzero-push_carry (suc c / 10) (suc c / 10) q (omega arith))))

horner :
    (a radix d power m : ℕ) → (a * radix + d) * power + m ≡ a * (power * radix) + (d * power + m)
horner a radix d power m = omega arith

-- The loop: the value, by the positions of the digits, and the two invariants.
little_value-decimal_digits :
    (radix : ℕ) (ds : List ℕ) (body : Text) {v : ℕ}
    → place_value radix body ≡ some v
    → little_value (decimal_digits radix ds body) ≡ little_value ds * radix ^ length body + v
unfolding decimal_digits
little_value-decimal_digits radix ds [] e = rw (pow-zero radix) (ground arith)
little_value-decimal_digits radix ds (c ∷ cs) {v} e =
    let (d, m, q, r, s) = place_value-cons radix c cs e in
    little_value-decimal_digits radix (mul_add radix (digit_or_zero radix c) ds) cs r
    ∙ rw (little_value-mul_add, q, s, pow-suc)
        (horner (little_value ds) radix d (radix ^ length cs) m)

decimal_digits-below :
    (radix : ℕ) (ds : List ℕ) (body : Text)
    → AllBelow10 ds
    → AllBelow10 (decimal_digits radix ds body)
unfolding decimal_digits
decimal_digits-below radix ds [] h = h
decimal_digits-below radix ds (c ∷ cs) h =
    decimal_digits-below radix (mul_add radix (digit_or_zero radix c) ds) cs
      (mul_add-below radix (digit_or_zero radix c) ds)

decimal_digits-IsCanonical :
    (radix : ℕ) (ds : List ℕ) (body : Text)
    → 0 < radix
    → IsCanonical ds
    → IsCanonical (decimal_digits radix ds body)
unfolding decimal_digits
decimal_digits-IsCanonical radix ds [] p h = h
decimal_digits-IsCanonical radix ds (c ∷ cs) p h =
    decimal_digits-IsCanonical radix (mul_add radix (digit_or_zero radix c) ds) cs p
      (mul_add-IsCanonical radix (digit_or_zero radix c) ds p h)

shown-IsCanonicalDecimal :
    (ds : List ℕ) → AllBelow10 ds → IsCanonical ds → IsCanonicalDecimal (shown ds) (little_value ds)
unfolding IsCanonicalDecimal IsCanonical
shown-IsCanonicalDecimal [] b (inl e) = absurd (concat-ne-nil 0 [] (sym e))
shown-IsCanonicalDecimal [] b (inr h) = cc
shown-IsCanonicalDecimal (d ∷ ds) b (inl e) =
    ((shown-ne-nil d ds, place_value-shown (d ∷ ds) b), inl (ap shown e))
shown-IsCanonicalDecimal (d ∷ ds) b (inr h) =
    ((shown-ne-nil d ds, place_value-shown (d ∷ ds) b), inr (shown-top_nonzero (d ∷ ds) h))

-- A numeral of any radix is converted to the decimal text of its value, with no leading zero.
pub radix_to_decimal-IsCanonicalDecimal :
    (radix : ℕ) (body : Text) (v : ℕ)
    → 0 < radix
    → place_value radix body ≡ some v
    → IsCanonicalDecimal (radix_to_decimal body radix) v
unfolding radix_to_decimal IsCanonical
radix_to_decimal-IsCanonicalDecimal radix body v h e =
    subst (IsCanonicalDecimal _) (little_value-decimal_digits radix (0 ∷ []) body e ∙ omega arith) (
      shown-IsCanonicalDecimal (decimal_digits radix (0 ∷ []) body)
        (decimal_digits-below radix (0 ∷ []) body (omega arith, tt))
        (decimal_digits-IsCanonical radix (0 ∷ []) body h (inl refl)))
