-- ===== src/Emit/Float/Typed.antt =====
-- A float is written so that it does not read as an integer.
use yamlrocks.Common.{
  ℕ, Bool, true, false, not, ◌||◌, Bool-cases, some, [], ◌∷◌, ◌++◌, Text, codes, contains, all,
  all-cons, ◌==◌, ◌≡◌, ◌≢◌, inl, inr, refl, sym, ◌∙◌, arith, false-ne-true,
}
use yamlrocks.Common.Int.{ℤ, nat_abs}
use yamlrocks.Common.Digits.{to_digit, digit_value, place_value-all, IsNumeral}
use yamlrocks.Resolver.Kind.{Float64, int, big_int}
use yamlrocks.Resolver.Yaml12.{classify_plain_12}
use yamlrocks.Resolver.Yaml12.Grammar.{Magnitude, zero_digit, decimal, hex, octal}
use yamlrocks.Resolver.Yaml12.Literals.{SignedText, bare, plus, minus_sign, Literal}
use yamlrocks.Resolver.Yaml12.Integers.{classify-int_iff, classify-big_int_iff}
use yamlrocks.Common.Decimal.{zero_padded}
use yamlrocks.Emit.Float.{
  Formats, split_once, or_zero, sign_of, parts_of, with_point, in_range, scientific_exponent,
  scientific_text, canonical_float,
}

contains-append : (xs ys : Text) (c : ℕ) → contains (xs ++ ys) c ≡ (contains xs c || contains ys c)
contains-append [] ys c = refl
contains-append (x ∷ xs) ys c = elim (Bool-cases (x == c)) [
  | inl h ↦ rw (h) refl
  | inr h ↦ rw (h, contains-append xs ys c) refl
]

with_point-contains : (s : Text) → contains (with_point s) b'.' ≡ true
with_point-contains s = elim (Bool-cases (contains s b'.')) [
  | inl h ↦ rw (h, h) refl
  | inr h ↦ rw (h) (contains-append s (codes ".0") b'.' ∙ rw (h) refl)
]

point_in_front : (xs ys : Text) → contains xs b'.' ≡ true → contains (xs ++ ys) b'.' ≡ true
point_in_front xs ys h = contains-append xs ys b'.' ∙ rw (h) refl

digit-no_point : (radix c d : ℕ) → to_digit radix c ≡ some d → not (c == b'.') ≡ true
unfolding to_digit digit_value
digit-no_point radix c d h = ground arith

no_point : (s : Text) → all (λ c. not (c == b'.')) s ≡ true → contains s b'.' ≡ false
no_point [] h = refl
no_point (c ∷ cs) h =
    let (first, others) = all-cons (λ c. not (c == b'.')) c cs h in
    let n : (c == b'.') ≡ false = ground arith in rw (n) (no_point cs others)

numeral-no_point : (radix : ℕ) (s : Text) {n : ℕ} → IsNumeral radix s n → contains s b'.' ≡ false
numeral-no_point radix s i =
    no_point s (place_value-all radix (λ c. not (c == b'.')) s (digit-no_point radix) i.1)

Magnitude-no_point : {s : Text} {n : ℕ} → Magnitude s n → contains s b'.' ≡ false
Magnitude-no_point (zero_digit e z) = rw (e) refl
Magnitude-no_point {s} (decimal i z) = numeral-no_point 10 s i
Magnitude-no_point (hex ds (inl e) i) = rw (e) (numeral-no_point 16 ds i)
Magnitude-no_point (hex ds (inr e) i) = rw (e) (numeral-no_point 16 ds i)
Magnitude-no_point (octal ds (inl e) i) = rw (e) (numeral-no_point 8 ds i)
Magnitude-no_point (octal ds (inr e) i) = rw (e) (numeral-no_point 8 ds i)

SignedText-no_point :
    {v s : Text} {negative : Bool}
    → SignedText v negative s
    → contains s b'.' ≡ false
    → contains v b'.' ≡ false
SignedText-no_point (bare e b) h = rw (e) h
SignedText-no_point (plus e b) h = rw (e) h
SignedText-no_point (minus_sign e b) h = rw (e) h

Literal-no_point : {v : Text} {z : ℤ} → Literal v z → contains v b'.' ≡ false
Literal-no_point l = SignedText-no_point l.sign (Magnitude-no_point l.body_is)

scientific_text-contains :
    {F : Type 0} (std : Formats F) (f : F) → contains (scientific_text std f) b'.' ≡ true
unfolding scientific_text
scientific_text-contains std f =
    let parts = parts_of (std.scientific f) (split_once (std.scientific f) b'e') in
    let exp = or_zero (std.parse_i32 parts.1) in
    point_in_front (with_point parts.0) (b'e' ∷ sign_of exp ∷ zero_padded 2 (nat_abs exp))
      (with_point-contains parts.0)

canonical_float-contains :
    {F : Type 0} (std : Formats F) (f : F) → contains (canonical_float std f) b'.' ≡ true
unfolding canonical_float
canonical_float-contains std f = elim (Bool-cases (std.is_infinite f)) [
  | inl i ↦ elim (Bool-cases (std.is_sign_positive f)) [
    | inl p ↦ rw (i, p) refl
    | inr p ↦ rw (i, p) refl
  ]
  | inr i ↦ elim (Bool-cases (std.is_nan f)) [
    | inl n ↦ rw (i, n) refl
    | inr n ↦ elim (Bool-cases (in_range (scientific_exponent std f))) [
      | inl r ↦ rw (i, n, r) (with_point-contains (std.display f))
      | inr r ↦ rw (i, n, r) (scientific_text-contains std f)
    ]
  ]
]

-- Whatever the standard library writes for a float, the plain scalar that canonical_float writes is
-- read by the core schema neither as an integer nor as a big integer.
pub canonical_float-not_integer :
    {F : Type 0} (std : Formats F) (f64 : Float64 F) (f : F) (z : ℤ)
    → (classify_plain_12 f64 (canonical_float std f) ≢ int z)
      × (classify_plain_12 f64 (canonical_float std f) ≢ big_int)
canonical_float-not_integer std f64 f z =
    let point = canonical_float-contains std f in
    (
      λ h.
          let (l, _) = (classify-int_iff f64 (canonical_float std f) z).0 h in
          false-ne-true (sym (Literal-no_point l) ∙ point),
      λ h.
          let (_, l, _) = (classify-big_int_iff f64 (canonical_float std f)).0 h in
          false-ne-true (sym (Literal-no_point l) ∙ point),
    )
