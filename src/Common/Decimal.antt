-- ===== src/Common/Decimal.antt =====
-- Little-endian decimal digits, and the decimal text of a number: what `{}` and `{:0w}` write.
use mathlib.Core.List.{List, [], ◌∷◌, ◌++◌, map, reverse, map-append, reverse-cons, concat-ne-nil}
use mathlib.Core.Bool.{Bool, true, false, not}
use mathlib.Core.Logic.{◌⊎◌, inl, inr, ◌≢◌}
use mathlib.Core.Option.{some}
use mathlib.Core.Path.{◌≡◌, refl, sym, ap, ◌∙◌}
use native.Mathlib.Nat.{pow-zero, pow-suc}
use native.Mathlib.Omega.{arith}
use Prim.Native.Nat.{ℕ, zero, suc, ◌+◌, ◌-◌, ◌*◌, ◌/◌, ◌%◌, ◌^◌, ◌≤◌, ◌<◌}
use yamlrocks.Common.Chars.{Text, starts_with}
use yamlrocks.Common.Digits.{IsNumeral, place_value, place_value-cons, to_digit}
use yamlrocks.Common.Lists.{length, length-append, length-replicate, replicate}
use yamlrocks.Common.Tests.{◌==◌, Bool-cases, ==_iff}

-- `while carry > 0 { digits.push(carry % 10); carry /= 10; }` of src/resolver/mod.rs: the digits of
-- a number, and none for 0. The number itself is fuel enough.
unfoldable pub push_carry : ℕ → ℕ → List ℕ
push_carry zero carry = []
push_carry (suc fuel) carry = elim (carry == 0) [
  | true ↦ []
  | false ↦ (carry % 10) ∷ push_carry fuel (carry / 10)
]

-- The number that little-endian decimal digits stand for.
abbrev pub little_value : List ℕ → ℕ
little_value [] = 0
little_value (d ∷ ds) = d + 10 * little_value ds

-- Digits, each below ten.
abbrev pub AllBelow10 : List ℕ → Type 0
AllBelow10 [] = Unit {0}
AllBelow10 (d ∷ ds) = (d < 10) × AllBelow10 ds

-- The top digit is there, and is not zero.
abbrev pub top_nonzero : List ℕ → Bool
top_nonzero [] = false
top_nonzero (d ∷ []) = not (d == 0)
top_nonzero (d ∷ d' ∷ ds) = top_nonzero (d' ∷ ds)

pub little_value-push_carry :
    (fuel carry : ℕ) → carry ≤ fuel → little_value (push_carry fuel carry) ≡ carry
unfolding push_carry
little_value-push_carry zero carry h = omega arith
little_value-push_carry (suc fuel) carry h = elim (Bool-cases (carry == 0)) [
  | inl e ↦ rw (e, push_carry) (ground arith)
  | inr e ↦
      rw (e, push_carry) (omega (arith, little_value-push_carry fuel (carry / 10) (ground arith)))
]

pub push_carry-below : (fuel carry : ℕ) → AllBelow10 (push_carry fuel carry)
unfolding push_carry
push_carry-below zero carry = tt
push_carry-below (suc fuel) carry = elim (Bool-cases (carry == 0)) [
  | inl e ↦ rw (e, push_carry) tt
  | inr e ↦ rw (e, push_carry) (omega arith, push_carry-below fuel (carry / 10))
]

push_carry-zero : (fuel : ℕ) → push_carry fuel 0 ≡ []
unfolding push_carry
push_carry-zero zero = refl
push_carry-zero (suc fuel) = refl

top_nonzero-cons : (d : ℕ) (ds : List ℕ) → top_nonzero ds ≡ true → top_nonzero (d ∷ ds) ≡ true
top_nonzero-cons d [] h = cc
top_nonzero-cons d (e ∷ ds) h = h

-- A last digit in front of the carry that it leaves.
pub top_nonzero-step :
    (fuel n : ℕ)
    → 0 < n
    → (0 < n / 10 → top_nonzero (push_carry fuel (n / 10)) ≡ true)
    → top_nonzero ((n % 10) ∷ push_carry fuel (n / 10)) ≡ true
top_nonzero-step fuel n p ih = elim (Bool-cases (n / 10 == 0)) [
  | inl e ↦ rw ((==_iff _ _).0 e, push_carry-zero) (ground arith)
  | inr e ↦ top_nonzero-cons (n % 10) (push_carry fuel (n / 10)) (ih (ground arith))
]

pub top_nonzero-push_carry :
    (fuel carry : ℕ) → 0 < carry → carry ≤ fuel → top_nonzero (push_carry fuel carry) ≡ true
unfolding push_carry
top_nonzero-push_carry zero carry p h = absurd (omega arith)
top_nonzero-push_carry (suc fuel) carry p h = elim (Bool-cases (carry == 0)) [
  | inl e ↦ absurd (ground arith)
  | inr e ↦
      rw (e, push_carry)
        (top_nonzero-step fuel carry p
          (λ q. top_nonzero-push_carry fuel (carry / 10) q (omega arith)))
]

-- A digit's text, and the text of a little-endian numeral, most significant digit first.
to_digit-decimal : (d : ℕ) → d < 10 → to_digit 10 (b'0' + d) ≡ some d
unfolding to_digit
to_digit-decimal d h = ground arith

abbrev pub shown : List ℕ → Text
shown ds = map (λ d. b'0' + d) (reverse ds)

pub shown-cons : (d : ℕ) (ds : List ℕ) → shown (d ∷ ds) ≡ shown ds ++ (b'0' + d) ∷ []
shown-cons d ds = rw reverse-cons (map-append (λ k. b'0' + k) (reverse ds) (d ∷ []))

length-snoc : (s : Text) (c : ℕ) → length (s ++ c ∷ []) ≡ suc (length s)
length-snoc [] c = refl
length-snoc (k ∷ s) c = ap suc (length-snoc s c)

snoc_value : (d' power d m : ℕ) → d' * (power * 10) + (d + 10 * m) ≡ d + 10 * (d' * power + m)
snoc_value d' power d m = omega arith

pub place_value-snoc :
    (s : Text) (c d v : ℕ)
    → place_value 10 s ≡ some v
    → to_digit 10 c ≡ some d
    → place_value 10 (s ++ c ∷ []) ≡ some (d + 10 * v)
place_value-snoc [] c d v e q = rw q (ground arith)
place_value-snoc (k ∷ s) c d v e q =
    let (d', m, q', r, w) = place_value-cons 10 k s e in
    rw (q', place_value-snoc s c d m r q, w, length-snoc s c, pow-suc)
      (ap some (snoc_value d' (10 ^ length s) d m))

pub place_value-shown :
    (ds : List ℕ) → AllBelow10 ds → place_value 10 (shown ds) ≡ some (little_value ds)
place_value-shown [] h = refl
place_value-shown (d ∷ ds) (h, t) = rw shown-cons (
    place_value-snoc (shown ds) (b'0' + d) d (little_value ds) (place_value-shown ds t)
      (to_digit-decimal d h))

starts_with-append :
    (s t : Text) (k : ℕ) → s ≢ [] → starts_with (s ++ t) (k ∷ []) ≡ starts_with s (k ∷ [])
starts_with-append [] t k ne = absurd (ne refl)
starts_with-append (c ∷ s) t k ne = refl

pub shown-ne-nil : (d : ℕ) (ds : List ℕ) → shown (d ∷ ds) ≢ []
shown-ne-nil d ds e = concat-ne-nil (b'0' + d) (shown ds) (sym (shown-cons d ds) ∙ e)

pub shown-top_nonzero :
    (ds : List ℕ) → top_nonzero ds ≡ true → starts_with (shown ds) (b'0' ∷ []) ≡ false
shown-top_nonzero [] h = cc
shown-top_nonzero (d ∷ []) h = ground arith
shown-top_nonzero (d ∷ d' ∷ ds) h = rw shown-cons (
    starts_with-append (shown (d' ∷ ds)) _ b'0' (shown-ne-nil d' ds)
    ∙ shown-top_nonzero (d' ∷ ds) h)

-- Decimal text with no leading zero: `0`, or digits that start with another.
abbrev pub IsCanonicalDecimal : Text → ℕ → Type 0
IsCanonicalDecimal s n = IsNumeral 10 s n × ((s ≡ b'0' ∷ []) ⊎ (starts_with s (b'0' ∷ []) ≡ false))

-- `{}` of an unsigned number.
unfoldable pub decimal : ℕ → Text
unfolding push_carry
decimal zero = b'0' ∷ []
decimal (suc n) = shown (push_carry (suc n) (suc n))

-- `{:0w}`: zeros in front up to the width `w`.
unfoldable pub zero_padded : ℕ → ℕ → Text
unfolding decimal
zero_padded w n = replicate (w - length (decimal n)) b'0' ++ decimal n

shown-ne-nil_top : (ds : List ℕ) → top_nonzero ds ≡ true → shown ds ≢ []
shown-ne-nil_top [] h = cc
shown-ne-nil_top (d ∷ ds) h = shown-ne-nil d ds

pub decimal-IsNumeral : (n : ℕ) → IsNumeral 10 (decimal n) n
unfolding decimal to_digit
decimal-IsNumeral zero = (concat-ne-nil b'0' [], refl)
decimal-IsNumeral (suc n) = (
  shown-ne-nil_top (push_carry (suc n) (suc n))
      (top_nonzero-push_carry (suc n) (suc n) (omega arith) (omega arith)),
  place_value-shown (push_carry (suc n) (suc n)) (push_carry-below (suc n) (suc n))
      ∙ ap some (little_value-push_carry (suc n) (suc n) (omega arith)),
)

length-push_carry : (fuel n w : ℕ) → n < 10 ^ w → length (push_carry fuel n) ≤ w
unfolding push_carry
length-push_carry zero n w h = omega arith
length-push_carry (suc fuel) n zero h =
    let z : n ≡ 0 = omega (arith, rw (pow-zero 10) at h) in rw z (omega arith)
length-push_carry (suc fuel) n (suc w) h = elim (Bool-cases (n == 0)) [
  | inl e ↦ rw (e, push_carry) (omega arith)
  | inr e ↦
      let lt : n < 10 ^ w * 10 = rw pow-suc at h in
      rw (e, push_carry) (omega (arith, length-push_carry fuel (n / 10) w (omega arith)))
]

length-shown : (ds : List ℕ) → length (shown ds) ≡ length ds
length-shown [] = refl
length-shown (d ∷ ds) = rw shown-cons (length-snoc (shown ds) (b'0' + d) ∙ ap suc (length-shown ds))

length-decimal : (w n : ℕ) → 0 < w → n < 10 ^ w → length (decimal n) ≤ w
unfolding decimal
length-decimal w zero p h = p
length-decimal w (suc n) p h =
    omega (arith, length-shown (push_carry (suc n) (suc n)), length-push_carry (suc n) (suc n) w h)

-- A padded number fills its width exactly.
pub length-zero_padded : (w n : ℕ) → 0 < w → n < 10 ^ w → length (zero_padded w n) ≡ w
unfolding zero_padded
length-zero_padded w n h lt =
    length-append (replicate (w - length (decimal n)) b'0') (decimal n)
    ∙ omega (arith, length-replicate {A = ℕ} (w - length (decimal n)) b'0', length-decimal w n h lt)

place_value-zeros :
    (k : ℕ) (s : Text) (n : ℕ)
    → place_value 10 s ≡ some n
    → place_value 10 (replicate k b'0' ++ s) ≡ some n
unfolding to_digit
place_value-zeros zero s n h = h
place_value-zeros (suc k) s n h = rw (place_value-zeros k s n h) (ap some (omega arith))

pub place_value-zero_padded : (w n : ℕ) → place_value 10 (zero_padded w n) ≡ some n
unfolding zero_padded
place_value-zero_padded w n = place_value-zeros _ (decimal n) n (decimal-IsNumeral n).1
