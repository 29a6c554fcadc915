-- ===== src/Resolver/Schema/Big.antt =====
-- The text of a big integer of the core schema (`big_int_to_decimal` and `Resolver::resolve`,
-- src/resolver/mod.rs).
use yamlrocks.Common.{
  ℕ, ◌<◌, Bool, true, false, not, Bool-cases, false-ne-true, none, some, [], ◌∷◌, Text, starts_with,
  without, all, all-cons, ◌==◌, if◌then◌else◌, ◌≡◌, ◌⊎◌, inl, inr, refl, sym, subst, ◌∙◌, ltb,
  length, ap, arith,
}
use yamlrocks.Common.Int.{ℤ, pos, signed, nat_abs, i64_max}
use yamlrocks.Common.Decimal.{IsCanonicalDecimal}
use yamlrocks.Common.Digits.{IsNumeral, place_value, place_value-all, to_digit}
use yamlrocks.Resolver.Kind.{plain, Float64, big_int}
use yamlrocks.Resolver.Atoms.{split_sign}
use yamlrocks.Resolver.Decimal.{radix_of, radix_to_decimal, big_int_to_decimal}
use yamlrocks.Resolver.Decimal.Value.{radix_to_decimal-IsCanonicalDecimal}
use yamlrocks.Resolver.Yaml12.Grammar.{Magnitude, zero_digit, decimal, hex, octal}
use yamlrocks.Resolver.Yaml12.Literals.{
  SignedText, bare, plus, minus_sign, Literal, split_sign-SignedText, Magnitude-Unsigned,
}
use yamlrocks.Resolver.Yaml12.Integers.{classify-Literal, past_leb}
use yamlrocks.Resolver.Schema.{yaml12, resolve, resolve_kind, or_text}

not_underscore : (radix c d : ℕ) → to_digit radix c ≡ some d → not (c == b'_') ≡ true
unfolding to_digit
not_underscore radix c d h = ground arith

without-all : (k : ℕ) (s : Text) → all (λ c. not (c == k)) s ≡ true → without k s ≡ s
without-all k [] h = refl
without-all k (c ∷ cs) h =
    let (a, b) = all-cons (λ c. not (c == k)) c cs h in
    elim (Bool-cases (c == k)) [
      | inl e ↦ absurd (false-ne-true (rw (e) at a))
      | inr e ↦ rw (e) (ap (λ t. c ∷ t) (without-all k cs b))
    ]

without-numeral : (radix : ℕ) (s : Text) (n : ℕ) → place_value radix s ≡ some n → without b'_' s ≡ s
without-numeral radix s n h =
    without-all b'_' s (place_value-all radix (λ c. not (c == b'_')) s (not_underscore radix) h)

radix_of-no_zero : (s : Text) → starts_with s (b'0' ∷ []) ≡ false → radix_of s ≡ none
unfolding radix_of
radix_of-no_zero [] h = refl
radix_of-no_zero (c ∷ cs) h =
    let e : (c == b'0') ≡ false = ground arith in
    elim (Bool-cases (ltb 1 (length (c ∷ cs)))) [ inl l ↦ rw (e, l) refl | inr l ↦ rw (e, l) refl ]

-- A magnitude in another radix
abbrev Radix : Text → ℕ → Type 0
Radix s n =
    (radix : ℕ) × (ds : Text) × (0 < radix)
    × (radix_of (without b'_' s) ≡ some (radix, ds))
    × (place_value radix ds ≡ some n)

zero-canonical : (n : ℕ) → n ≡ 0 → IsCanonicalDecimal (b'0' ∷ []) n
unfolding to_digit
zero-canonical n z = ((λ q. cc q, rw (z) refl), inl refl)

radix_of-Magnitude :
    {s : Text} {n : ℕ}
    → Magnitude s n
    → ((radix_of (without b'_' s) ≡ none) × IsCanonicalDecimal s n) ⊎ Radix s n
unfolding radix_of
radix_of-Magnitude {s} {n} (zero_digit e z) = inl (rw (e) refl, rw (e) (zero-canonical n z))
radix_of-Magnitude {s} {n} (decimal (ne, q) z) =
    inl (rw (without-numeral 10 s n q) (radix_of-no_zero s z), ((ne, q), inr z))
radix_of-Magnitude {s} {n} (hex ds (inl e) (ne, q)) =
    inr (16, ds, omega arith, rw (e, without-numeral 16 ds n q) refl, q)
radix_of-Magnitude {s} {n} (hex ds (inr e) (ne, q)) =
    inr (16, ds, omega arith, rw (e, without-numeral 16 ds n q) refl, q)
radix_of-Magnitude {s} {n} (octal ds (inl e) (ne, q)) =
    inr (8, ds, omega arith, rw (e, without-numeral 8 ds n q) refl, q)
radix_of-Magnitude {s} {n} (octal ds (inr e) (ne, q)) =
    inr (8, ds, omega arith, rw (e, without-numeral 8 ds n q) refl, q)

payload-none :
    (v s : Text) (negative : Bool)
    → split_sign v ≡ some (negative, s)
    → radix_of (without b'_' s) ≡ none
    → big_int_to_decimal v ≡ none
unfolding big_int_to_decimal
payload-none v s negative e r = rw (e, r) refl

payload-some :
    (v s ds : Text) (negative : Bool) (radix : ℕ)
    → split_sign v ≡ some (negative, s)
    → radix_of (without b'_' s) ≡ some (radix, ds)
    → big_int_to_decimal v
      ≡ some (if negative then b'-' ∷ radix_to_decimal ds radix else radix_to_decimal ds radix)
unfolding big_int_to_decimal
payload-some v s ds negative radix e r = rw (e, r) refl

-- `t` is a decimal numeral of value `z` behind an optional sign: digits 0 to 9, and no leading zero.
pub record IsDecimalText (t : Text) (z : ℤ) : Type 0 where
  pub negative : Bool
  pub body : Text
  pub magnitude : ℕ
  pub sign : SignedText t negative body
  pub body_is : IsCanonicalDecimal body magnitude
  pub value : z ≡ signed negative magnitude

signed-IsDecimalText :
    (negative : Bool) (t : Text) (n : ℕ)
    → IsCanonicalDecimal t n
    → IsDecimalText (if negative then b'-' ∷ t else t) (signed negative n)
signed-IsDecimalText true t n m = record {
  negative = true;
  body = t;
  magnitude = n;
  sign = minus_sign refl refl;
  body_is = m;
  value = refl;
}
signed-IsDecimalText false t n m = record {
  negative = false;
  body = t;
  magnitude = n;
  sign = bare refl refl;
  body_is = m;
  value = refl;
}

sign-split : {v : Text} {z : ℤ} (l : Literal v z) → split_sign v ≡ some (l.negative, l.body)
sign-split l = split_sign-SignedText (Magnitude-Unsigned l.body_is) l.sign

module _ {F : Type 0} (f64 : Float64 F) where
  resolve-big :
      (v : Text) (z : ℤ)
      → Literal v z
      → i64_max < nat_abs z
      → resolve f64 yaml12 v plain none ≡ big_int (or_text (big_int_to_decimal v) v)
  unfolding resolve resolve_kind
  resolve-big v z l h = rw (classify-Literal f64 v z l, past_leb (nat_abs z) h) refl

  -- A plain integer literal of a magnitude above `i64::MAX`, whatever its radix, resolves to a big
  -- integer whose text is the decimal numeral of the same value, behind an optional sign.
  pub resolve-big_int :
      (v : Text) (z : ℤ)
      → Literal v z
      → i64_max < nat_abs z
      → (t : Text) × (resolve f64 yaml12 v plain none ≡ big_int t) × IsDecimalText t z
  resolve-big_int v z l h = elim (radix_of-Magnitude l.body_is) [
    | inl (r, c) ↦ (
      v,
      resolve-big v z l h ∙ rw (payload-none v l.body l.negative (sign-split l) r) refl,
      record {
        negative = l.negative;
        body = l.body;
        magnitude = l.magnitude;
        sign = l.sign;
        body_is = c;
        value = l.value;
      },
    )
    | inr (radix, ds, positive, r, q) ↦ (
      _,
      resolve-big v z l h ∙ rw (payload-some v l.body ds l.negative radix (sign-split l) r) refl,
      subst (IsDecimalText _) (sym l.value) (
          signed-IsDecimalText l.negative _ l.magnitude
            (radix_to_decimal-IsCanonicalDecimal radix ds l.magnitude positive q)),
    )
  ]

  -- A decimal literal behind a `+`, of a magnitude above `i64::MAX`, keeps the `+` in its text.
  pub resolve-plus :
      (s : Text) (n : ℕ)
      → IsNumeral 10 s n
      → starts_with s (b'0' ∷ []) ≡ false
      → i64_max < n
      → resolve f64 yaml12 (b'+' ∷ s) plain none ≡ big_int (b'+' ∷ s)
  resolve-plus s n i z h =
      let l : Literal (b'+' ∷ s) (pos n) = record {
        negative = false;
        body = s;
        magnitude = n;
        sign = plus refl refl;
        body_is = decimal i z;
        value = refl;
      } in
      resolve-big (b'+' ∷ s) (pos n) l h
      ∙ rw
          (payload-none (b'+' ∷ s) s false (sign-split l)
            (rw (without-numeral 10 s n i.1) (radix_of-no_zero s z)))
          refl
