-- ===== src/Resolver/Yaml12/Integers.antt =====
-- Plain scalars of the core schema that are integers, against the grammar of `Grammar`.
use yamlrocks.Common.{
  ℕ, ◌≤◌, ◌<◌, Bool, true, false, ◌≡◌, refl, sym, ◌∙◌, inl, inr, none, some, [], ◌∷◌, Text, arith,
  leb, if◌then◌else◌, ◌>>=◌, Option-cases, none-ne-some, >>=-eq-some, le→leb, ◌↔◌,
}
use yamlrocks.Common.Digits.{place_value, place_value-head, to_digit}
use yamlrocks.Common.Int.{ℤ, pos, minus, signed, neg_ℤ, nat_abs, nat_abs-signed, i64_max}
use yamlrocks.Resolver.Atoms.{is_null, split_sign}
use yamlrocks.Resolver.Kind.{
  Float64, ScalarKind, int, big_int, null, merge, bool, str, number_kind-int, number_kind-big_int,
}
use yamlrocks.Resolver.Yaml12.Bodies.{
  fitting, int_body_12-Magnitude, int_body_12-eq-some, big_body_12-Magnitude, Magnitude-big_body_12,
}
use yamlrocks.Resolver.Yaml12.Grammar.{Magnitude, zero_digit, decimal, hex, octal}
use yamlrocks.Resolver.Yaml12.{
  int_body_12, try_parse_int_12, is_big_int_12, number_start_12, classify_number_12,
  classify_plain_12,
}
use yamlrocks.Resolver.Yaml12.Literals.{
  SignedText, bare, plus, minus_sign, Literal, Magnitude-Unsigned, split_sign-SignedText,
  SignedText-split_sign,
}

sign_of_fitting :
    (negative : Bool) (n : ℕ)
    → (fitting n >>= λ r. some (if negative then neg_ℤ r else r))
      ≡ (if leb n i64_max then some (signed negative n) else none)
sign_of_fitting true n = ground arith
sign_of_fitting false n = ground arith

try_parse_int_12-Literal :
    {v : Text} {z : ℤ}
    → Literal v z
    → try_parse_int_12 v ≡ (if leb (nat_abs z) i64_max then some z else none)
unfolding try_parse_int_12
try_parse_int_12-Literal {v} {z} l =
    rw (split_sign-SignedText (Magnitude-Unsigned l.body_is) l.sign, try_parse_int_12)
      (rw (int_body_12-Magnitude l.body l.magnitude l.body_is)
        (rw (l.value, nat_abs-signed) (sign_of_fitting l.negative l.magnitude)))

-- A text that starts like a number is none of the words.
words_12 :
    {F : Type 0} (f64 : Float64 F) (v : Text)
    → number_start_12 v ≡ true
    → classify_plain_12 f64 v ≡ classify_number_12 f64 v
unfolding classify_plain_12
words_12 f64 [] h = cc
words_12 f64 (c ∷ cs) h = ground arith

is_big_int_12-Literal : {v : Text} {z : ℤ} → Literal v z → is_big_int_12 v ≡ true
unfolding is_big_int_12
is_big_int_12-Literal {v} l =
    let sp = split_sign-SignedText (Magnitude-Unsigned l.body_is) l.sign in
    rw (sp, is_big_int_12) (Magnitude-big_body_12 v l.body l.negative sp l.body_is)

digit_start :
    (c : ℕ) (cs : Text) (n : ℕ) → place_value 10 (c ∷ cs) ≡ some n → number_start_12 (c ∷ cs) ≡ true
unfolding to_digit
digit_start c cs n h = let (d, e) = place_value-head 10 c cs n h in ground arith

number_start_12-Magnitude : {s : Text} {n : ℕ} → Magnitude s n → number_start_12 s ≡ true
number_start_12-Magnitude (zero_digit e z) = rw e
number_start_12-Magnitude {s = []} (decimal (ne, q) z) = absurd (ne refl)
number_start_12-Magnitude {s = c ∷ cs} {n = n} (decimal (ne, q) z) = digit_start c cs n q
number_start_12-Magnitude (hex ds (inl e) i) = rw e
number_start_12-Magnitude (hex ds (inr e) i) = rw e
number_start_12-Magnitude (octal ds (inl e) i) = rw e
number_start_12-Magnitude (octal ds (inr e) i) = rw e

number_start_12-signed :
    {v s : Text} {negative : Bool}
    → SignedText v negative s
    → number_start_12 s ≡ true
    → number_start_12 v ≡ true
number_start_12-signed (bare e b) h = rw e h
number_start_12-signed (plus e b) h = rw e
number_start_12-signed (minus_sign e b) h = rw e

number_start_12-Literal : {v : Text} {z : ℤ} → Literal v z → number_start_12 v ≡ true
number_start_12-Literal l = number_start_12-signed l.sign (number_start_12-Magnitude l.body_is)

signed_result :
    (negative : Bool) (n : ℕ) (r z : ℤ)
    → r ≡ pos n
    → some (if negative then neg_ℤ r else r) ≡ some z
    → z ≡ signed negative n
signed_result true n r z e h = let k : some (minus n) ≡ some z = rw e at h in cc
signed_result false n r z e h = let k : some (pos n) ≡ some z = rw e at h in cc

Literal-try_parse_int_12 :
    (v : Text) (z : ℤ) → try_parse_int_12 v ≡ some z → Literal v z × (nat_abs z ≤ i64_max)
unfolding try_parse_int_12
Literal-try_parse_int_12 v z h = elim (Option-cases (split_sign v)) [
  | inl e ↦ absurd (none-ne-some (rw (e, try_parse_int_12) at h))
  | inr ((negative, s), e) ↦
      let (r, q, w) = >>=-eq-some (int_body_12 s) _ (rw (e, try_parse_int_12) at h) in
      let (n, m, le, t) = int_body_12-eq-some s q in
      let (sg, _) = SignedText-split_sign v e in
      let value : z ≡ signed negative n = signed_result negative n r z t w in
      (
        record {
          negative = negative;
          body = s;
          magnitude = n;
          sign = sg;
          body_is = m;
          value = value;
        },
        rw (value, nat_abs-signed) le,
      )
]

Literal-is_big_int_12 : (v : Text) → is_big_int_12 v ≡ true → (z : ℤ) × Literal v z
unfolding is_big_int_12
Literal-is_big_int_12 v h = elim (Option-cases (split_sign v)) [
  | inl e ↦ cc (rw (e, is_big_int_12) at h)
  | inr ((negative, s), e) ↦
      let (sg, ne) = SignedText-split_sign v e in
      let (n, m) = big_body_12-Magnitude v s negative e ne (rw (e, is_big_int_12) at h) in
      (
        signed negative n,
        record {
          negative = negative;
          body = s;
          magnitude = n;
          sign = sg;
          body_is = m;
          value = refl;
        },
      )
]

too_large :
    (z : ℤ) → (if leb (nat_abs z) i64_max then some z else none) ≡ none → i64_max < nat_abs z
too_large z h = ground arith

pub past_leb : (n : ℕ) → i64_max < n → leb n i64_max ≡ false
past_leb n h = ground arith

module _ {F : Type 0} (f64 : Float64 F) where
  -- A plain scalar that is an integer literal resolves to its value where the magnitude is at most
  -- `i64::MAX`, and else to a big integer.
  pub classify-Literal :
      (v : Text) (z : ℤ)
      → Literal v z
      → classify_plain_12 f64 v ≡ (if leb (nat_abs z) i64_max then int z else big_int)
  unfolding classify_number_12
  classify-Literal v z l =
      words_12 f64 v (number_start_12-Literal l)
      ∙ rw (try_parse_int_12-Literal l, is_big_int_12-Literal l) (ground arith)

  -- The ladder of `classify_plain_12` answers an integer only by its last arm.
  abbrev ladder : Bool → Bool → Bool → Bool → Bool → ScalarKind F → ScalarKind F
  ladder is_null is_merge is_true is_false no_number number =
      if is_null
      then null
      else if is_merge
      then merge
      else if is_true
      then bool true
      else if is_false
      then bool false
      else if no_number
      then str
      else number

  ladder-int :
      (a b c d e : Bool) (k : ScalarKind F) (z : ℤ) → ladder a b c d e k ≡ int z → k ≡ int z
  ladder-int a b c d e k z h = ground arith

  ladder-big_int :
      (a b c d e : Bool) (k : ScalarKind F) → ladder a b c d e k ≡ big_int → k ≡ big_int
  ladder-big_int a b c d e k h = ground arith

  classify-int : (v : Text) (z : ℤ) → classify_plain_12 f64 v ≡ int z → try_parse_int_12 v ≡ some z
  unfolding classify_plain_12
  classify-int v z h = number_kind-int _ _ _ z (ladder-int _ _ _ _ _ _ z h)

  classify-big_int :
      (v : Text)
      → classify_plain_12 f64 v ≡ big_int
      → (try_parse_int_12 v ≡ none) × (is_big_int_12 v ≡ true)
  unfolding classify_plain_12
  classify-big_int v h = number_kind-big_int _ _ _ (ladder-big_int _ _ _ _ _ _ h)

  -- A plain scalar resolves to the integer `z` exactly when it is a literal of value `z`, and
  -- the magnitude of `z` is at most `i64::MAX`.
  pub classify-int_iff :
      (v : Text) (z : ℤ) → (classify_plain_12 f64 v ≡ int z) ↔ (Literal v z × (nat_abs z ≤ i64_max))
  classify-int_iff v z = (
    λ h. Literal-try_parse_int_12 v z (classify-int v z h),
    λ h. classify-Literal v z h.0 ∙ rw (le→leb _ _ h.1),
  )

  -- A plain scalar resolves to a big integer exactly when it is a literal of a magnitude
  -- above `i64::MAX`; so -2^63, which an `i64` holds, is one.
  pub classify-big_int_iff :
      (v : Text)
      → (classify_plain_12 f64 v ≡ big_int) ↔ ((z : ℤ) × Literal v z × (i64_max < nat_abs z))
  classify-big_int_iff v = (
    λ h.
        let (none_small, big) = classify-big_int v h in
        let (z, l) = Literal-is_big_int_12 v big in
        (z, l, too_large z (sym (try_parse_int_12-Literal l) ∙ none_small)),
    λ h. classify-Literal v h.0 h.1 ∙ rw (past_leb _ h.2),
  )
