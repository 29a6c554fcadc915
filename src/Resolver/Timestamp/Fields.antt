-- ===== src/Resolver/Timestamp/Fields.antt =====
-- A padded number in front of other text is read back by the cursor (src/resolver/timestamp.rs).
use yamlrocks.Common.{
  ℕ, suc, ◌-◌, ◌^◌, ◌≤◌, ◌<◌, Bool, true, false, ◌&&◌, ◌≡◌, ◌≢◌, refl, ap, some, [], ◌∷◌, ◌++◌,
  Text, all, length, arith, ltb, if◌then◌else◌, subst, all-cons, lt→ltb,
}
use yamlrocks.Common.Decimal.{zero_padded, length-zero_padded, place_value-zero_padded}
use yamlrocks.Common.Digits.{place_value-all, is_digit, from_str_unsigned}
use yamlrocks.Common.Digits.Unsigned.{to_digit-digit, from_str_unsigned-IsNumeral}
use yamlrocks.Resolver.Timestamp.{take_digits, digits, number}

and_false : (b : Bool) → (b && false) ≡ false
and_false true = refl
and_false false = refl

sub-suc-one : (n : ℕ) → suc n - 1 ≡ n
sub-suc-one n = omega arith

le→not-ltb : (low w : ℕ) → low ≤ w → ltb w low ≡ false
le→not-ltb low w h = ground arith

-- The text does not go on with a digit.
abbrev pub no_digit : Text → Bool
no_digit [] = true
no_digit (c ∷ cs) = if is_digit c then false else true

take_digits-step :
    (max c : ℕ) (cs : Text) {ds rest : Text}
    → 0 < max
    → is_digit c ≡ true
    → take_digits (max - 1) cs ≡ (ds, rest)
    → take_digits max (c ∷ cs) ≡ (c ∷ ds, rest)
unfolding take_digits
take_digits-step max c cs p h e = rw (lt→ltb 0 max p, h, e)

-- As many digits as may be taken are taken.
pub take_digits-exact :
    (s rest : Text) → all is_digit s ≡ true → take_digits (length s) (s ++ rest) ≡ (s, rest)
take_digits-exact [] [] h = unfold take_digits in refl
take_digits-exact [] (c ∷ rest) h = unfold take_digits in refl
take_digits-exact (c ∷ s) rest h =
    let (d, t) = all-cons is_digit c s h in
    take_digits-step (suc (length s)) c (s ++ rest) (omega arith) d
      (rw sub-suc-one (take_digits-exact s rest t))

no_digit-head : (c : ℕ) (cs : Text) → no_digit (c ∷ cs) ≡ true → is_digit c ≡ false
no_digit-head c cs h = ground arith

-- A run of digits is taken whole, where it ends.
pub take_digits-run :
    (max : ℕ) (s rest : Text)
    → all is_digit s ≡ true
    → no_digit rest ≡ true
    → length s ≤ max
    → take_digits max (s ++ rest) ≡ (s, rest)
take_digits-run max [] [] h n le = unfold take_digits in refl
take_digits-run max [] (c ∷ rest) h n le =
    unfold take_digits in rw (no_digit-head c rest n, and_false)
take_digits-run max (c ∷ s) rest h n le =
    let (d, t) = all-cons is_digit c s h in
    take_digits-step max c (s ++ rest) (omega arith) d
      (take_digits-run (max - 1) s rest t n (omega arith))

pub all_digits-zero_padded : (w n : ℕ) → all is_digit (zero_padded w n) ≡ true
all_digits-zero_padded w n =
    place_value-all 10 is_digit (zero_padded w n) to_digit-digit (place_value-zero_padded w n)

zero_padded-ne-nil : (w n : ℕ) → 0 < w → n < 10 ^ w → zero_padded w n ≢ []
zero_padded-ne-nil w n p lt e =
    let k : length (zero_padded w n) ≡ 0 = ap length e in omega (arith, length-zero_padded w n p lt)

pub from_str_unsigned-zero_padded :
    (limit w n : ℕ)
    → 0 < w
    → n < 10 ^ w
    → n ≤ limit
    → from_str_unsigned limit (zero_padded w n) ≡ some n
from_str_unsigned-zero_padded limit w n p lt fits =
    from_str_unsigned-IsNumeral limit (zero_padded w n)
      (zero_padded-ne-nil w n p lt, place_value-zero_padded w n) fits

take_digits-zero_padded :
    (w n : ℕ) (rest : Text)
    → 0 < w
    → n < 10 ^ w
    → take_digits w (zero_padded w n ++ rest) ≡ (zero_padded w n, rest)
take_digits-zero_padded w n rest p lt =
    subst (λ k. take_digits k (zero_padded w n ++ rest) ≡ (zero_padded w n, rest))
      (length-zero_padded w n p lt)
      (take_digits-exact (zero_padded w n) rest (all_digits-zero_padded w n))

pub digits-zero_padded :
    (low w n : ℕ) (rest : Text)
    → 0 < w
    → low ≤ w
    → n < 10 ^ w
    → digits low w (zero_padded w n ++ rest) ≡ some (zero_padded w n, rest)
unfolding digits
digits-zero_padded low w n rest p le lt =
    rw (take_digits-zero_padded w n rest p lt, length-zero_padded w n p lt)
      (rw (le→not-ltb low w le))

-- A padded number is read back, and what stands behind it is left.
pub number-zero_padded :
    (limit low w n : ℕ) (rest : Text)
    → 0 < w
    → low ≤ w
    → n < 10 ^ w
    → n ≤ limit
    → number limit low w (zero_padded w n ++ rest) ≡ some (n, rest)
unfolding number
number-zero_padded limit low w n rest p le lt fits =
    rw (digits-zero_padded low w n rest p le lt, from_str_unsigned-zero_padded limit w n p lt fits)
