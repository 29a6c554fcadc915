-- ===== src/Resolver/Yaml12/Bodies.antt =====
-- What the parsers of the core schema answer on a body behind its sign (src/resolver/yaml12.rs).
use yamlrocks.Common.{
  ℕ, ◌≤◌, ◌<◌, Bool, true, false, ◌≡◌, ◌≢◌, refl, sym, ap, ◌∙◌, inl, inr, Option, some, [], ◌∷◌,
  Text, starts_with, arith, if◌then◌else◌, ◌>>=◌, Bool-cases, subst, none-ne-some, ◌&&◌, not,
  is_empty, all, between, ◌-◌, ◌+◌,
}
use yamlrocks.Common.Digits.{
  IsNumeral, place_value-total, place_value-all, to_digit, is_digit, within, numeral-unsigned,
  from_str_radix-place_value, from_str_radix-eq-some, test_head,
}
use yamlrocks.Common.Digits.Unsigned.{to_digit-digit}
use yamlrocks.Common.Int.{ℤ, pos, i64_max}
use yamlrocks.Resolver.Atoms.{from_radix_unsigned, split_sign, is_big_decimal_int, is_decimal}
use yamlrocks.Resolver.Yaml12.Grammar.{
  Magnitude, zero_digit, decimal, hex, octal, hex_body, octal_body, lone_zero, leading_zero,
  no_zero, Shape-of,
}
use yamlrocks.Resolver.Yaml12.{int_body_12, big_body_12, is_octal, is_hexdigit}

-- The integer of a magnitude, where it fits.
abbrev pub fitting : ℕ → Option ℤ
fitting n = within i64_max n >>= λ m. some (pos m)

from_radix_unsigned-IsNumeral :
    (radix : ℕ) (s : Text) (n : ℕ)
    → 0 < radix
    → IsNumeral radix s n
    → from_radix_unsigned s radix ≡ fitting n
unfolding from_radix_unsigned
from_radix_unsigned-IsNumeral radix s n h (ne, e) =
    let (p, m) = numeral-unsigned radix s n e in
    rw (p, m, from_str_radix-place_value s radix h ne p m, e)

-- Without a leading zero the body is decimal.
int_body_12-no_zero :
    (s : Text) → starts_with s (b'0' ∷ []) ≡ false → int_body_12 s ≡ from_radix_unsigned s 10
unfolding int_body_12
int_body_12-no_zero [] h = refl
int_body_12-no_zero (c ∷ []) h = rw (test_head b'0' c [] h)
int_body_12-no_zero (c ∷ c' ∷ cs) h = rw (test_head b'0' c (c' ∷ cs) h)

big_body_12-no_zero :
    (v s : Text) → starts_with s (b'0' ∷ []) ≡ false → big_body_12 v s ≡ is_big_decimal_int v
unfolding big_body_12
big_body_12-no_zero v [] h = refl
big_body_12-no_zero v (c ∷ []) h = rw (test_head b'0' c [] h, big_body_12)
big_body_12-no_zero v (c ∷ c' ∷ cs) h = rw (test_head b'0' c (c' ∷ cs) h, big_body_12)

-- The parser on a literal.
pub int_body_12-Magnitude : (s : Text) (n : ℕ) → Magnitude s n → int_body_12 s ≡ fitting n
unfolding int_body_12
int_body_12-Magnitude s n (zero_digit e z) = rw (e, z)
int_body_12-Magnitude s n (decimal i z) =
    int_body_12-no_zero s z ∙ from_radix_unsigned-IsNumeral 10 s n (omega arith) i
int_body_12-Magnitude s n (hex ds (inl e) i) =
    rw e (from_radix_unsigned-IsNumeral 16 ds n (omega arith) i)
int_body_12-Magnitude s n (hex ds (inr e) i) =
    rw e (from_radix_unsigned-IsNumeral 16 ds n (omega arith) i)
int_body_12-Magnitude s n (octal ds (inl e) i) =
    rw e (from_radix_unsigned-IsNumeral 8 ds n (omega arith) i)
int_body_12-Magnitude s n (octal ds (inr e) i) =
    rw e (from_radix_unsigned-IsNumeral 8 ds n (omega arith) i)

from_radix_unsigned-eq-some :
    (s : Text) (radix : ℕ) {z : ℤ}
    → 0 < radix
    → from_radix_unsigned s radix ≡ some z
    → (n : ℕ) × IsNumeral radix s n × (n ≤ i64_max) × (z ≡ pos n)
unfolding from_radix_unsigned
from_radix_unsigned-eq-some s radix h e = elim (Bool-cases (starts_with s (b'+' ∷ []))) [
  | inl p ↦ absurd (none-ne-some (rw p at e))
  | inr p ↦ elim (Bool-cases (starts_with s (b'-' ∷ []))) [
    | inl m ↦ absurd (none-ne-some (rw (p, m) at e))
    | inr m ↦ from_str_radix-eq-some s radix h p m (rw (p, m) at e)
  ]
]

-- What the parser of the body answers is the value of a literal.
pub int_body_12-eq-some :
    (s : Text) {z : ℤ}
    → int_body_12 s ≡ some z
    → (n : ℕ) × Magnitude s n × (n ≤ i64_max) × (z ≡ pos n)
unfolding int_body_12
int_body_12-eq-some s {z} h = elim (Shape-of s) [
  | hex_body ds (inl e) ↦
      let (n, i, le, q) = from_radix_unsigned-eq-some ds 16 (omega arith) (rw e at h) in
      (n, hex ds (inl e) i, le, q)
  | hex_body ds (inr e) ↦
      let (n, i, le, q) = from_radix_unsigned-eq-some ds 16 (omega arith) (rw e at h) in
      (n, hex ds (inr e) i, le, q)
  | octal_body ds (inl e) ↦
      let (n, i, le, q) = from_radix_unsigned-eq-some ds 8 (omega arith) (rw e at h) in
      (n, octal ds (inl e) i, le, q)
  | octal_body ds (inr e) ↦
      let (n, i, le, q) = from_radix_unsigned-eq-some ds 8 (omega arith) (rw e at h) in
      (n, octal ds (inr e) i, le, q)
  | lone_zero e ↦
      let h' : some (pos 0) ≡ some z = rw e at h in (0, zero_digit e refl, omega arith, cc)
  | leading_zero c cs e x x' o o' ↦ absurd (none-ne-some (rw (e, x, x', o, o') at h))
  | no_zero e ↦
      let (n, i, le, q) =
        from_radix_unsigned-eq-some s 10 (omega arith) (sym (int_body_12-no_zero s e) ∙ h) in
      (n, decimal i e, le, q)
]

digit-to_digit : (c : ℕ) → is_digit c ≡ true → (d : ℕ) × (to_digit 10 c ≡ some d)
unfolding to_digit
digit-to_digit c h = (c - b'0', ground arith)

octal-to_digit : (c : ℕ) → is_octal c ≡ true → (d : ℕ) × (to_digit 8 c ≡ some d)
unfolding to_digit
octal-to_digit c h = (c - b'0', ground arith)

hex_digit : ℕ → ℕ
hex_digit c =
    if between b'0' b'9' c
    then c - b'0'
    else if between b'a' b'f' c
    then c - b'a' + 10
    else c - b'A' + 10

hexdigit-to_digit : (c : ℕ) → is_hexdigit c ≡ true → (d : ℕ) × (to_digit 16 c ≡ some d)
unfolding to_digit hex_digit
hexdigit-to_digit c h = (hex_digit c, ground arith)

digits-IsNumeral :
    (radix : ℕ) (p : ℕ → Bool) (s : Text)
    → ((c : ℕ) → p c ≡ true → (d : ℕ) × (to_digit radix c ≡ some d))
    → (not (is_empty s) && all p s) ≡ true
    → (n : ℕ) × IsNumeral radix s n
digits-IsNumeral radix p [] h e = cc
digits-IsNumeral radix p (c ∷ cs) h e =
    let (n, q) = place_value-total radix p (c ∷ cs) h e in (n, ((λ r. cc r), q))

is_big_decimal_int-split_sign :
    (v s : Text) (negative : Bool)
    → split_sign v ≡ some (negative, s)
    → is_big_decimal_int v ≡ is_decimal s
unfolding is_big_decimal_int
is_big_decimal_int-split_sign v s negative sp = rw (sp, is_big_decimal_int)

padded_zero : (c : ℕ) (cs : Text) → is_decimal (b'0' ∷ c ∷ cs) ≡ true → ⊥
padded_zero c cs h = ground arith

decimal_digits :
    (s : Text) → s ≢ [] → is_decimal s ≡ true → (not (is_empty s) && all is_digit s) ≡ true
decimal_digits [] ne h = absurd (ne refl)
decimal_digits (c ∷ cs) ne h = ground arith

-- What the test for big integers accepts is a literal.
pub big_body_12-Magnitude :
    (v s : Text) (negative : Bool)
    → split_sign v ≡ some (negative, s)
    → s ≢ []
    → big_body_12 v s ≡ true
    → (n : ℕ) × Magnitude s n
unfolding big_body_12
big_body_12-Magnitude v s negative sp ne h = elim (Shape-of s) [
  | hex_body ds (inl e) ↦
      let (n, i) = digits-IsNumeral 16 is_hexdigit ds hexdigit-to_digit (rw e at h) in
      (n, hex ds (inl e) i)
  | hex_body ds (inr e) ↦
      let (n, i) = digits-IsNumeral 16 is_hexdigit ds hexdigit-to_digit (rw e at h) in
      (n, hex ds (inr e) i)
  | octal_body ds (inl e) ↦
      let (n, i) = digits-IsNumeral 8 is_octal ds octal-to_digit (rw e at h) in
      (n, octal ds (inl e) i)
  | octal_body ds (inr e) ↦
      let (n, i) = digits-IsNumeral 8 is_octal ds octal-to_digit (rw e at h) in
      (n, octal ds (inr e) i)
  | lone_zero e ↦ (0, zero_digit e refl)
  | leading_zero c cs e x x' o o' ↦ absurd (
      padded_zero c cs (
        subst (λ r. is_decimal r ≡ true) e
          (sym (is_big_decimal_int-split_sign v s negative sp) ∙ (rw (e, x, x', o, o') at h))))
  | no_zero e ↦
      let d =
        sym (is_big_decimal_int-split_sign v s negative sp) ∙ sym (big_body_12-no_zero v s e) ∙ h in
      let (n, i) = digits-IsNumeral 10 is_digit s digit-to_digit (decimal_digits s ne d) in
      (n, decimal i e)
]

to_digit-octal : (c d : ℕ) → to_digit 8 c ≡ some d → is_octal c ≡ true
unfolding to_digit
to_digit-octal c d h = ground arith

to_digit-hexdigit : (c d : ℕ) → to_digit 16 c ≡ some d → is_hexdigit c ≡ true
unfolding to_digit
to_digit-hexdigit c d h = ground arith

IsNumeral-digits :
    (radix : ℕ) (p : ℕ → Bool) (s : Text) {n : ℕ}
    → ((c d : ℕ) → to_digit radix c ≡ some d → p c ≡ true)
    → IsNumeral radix s n
    → (not (is_empty s) && all p s) ≡ true
IsNumeral-digits radix p [] h (ne, e) = absurd (ne refl)
IsNumeral-digits radix p (c ∷ cs) h (ne, e) = place_value-all radix p (c ∷ cs) h e

no_zero-IsNumeral :
    (s : Text) {n : ℕ} → IsNumeral 10 s n → starts_with s (b'0' ∷ []) ≡ false → is_decimal s ≡ true
no_zero-IsNumeral [] (ne, e) z = absurd (ne refl)
no_zero-IsNumeral (c ∷ cs) i z =
    rw (IsNumeral-digits 10 is_digit (c ∷ cs) to_digit-digit i, test_head b'0' c cs z)

-- The test for big integers accepts every literal.
pub Magnitude-big_body_12 :
    (v s : Text) (negative : Bool) {n : ℕ}
    → split_sign v ≡ some (negative, s)
    → Magnitude s n
    → big_body_12 v s ≡ true
unfolding big_body_12
Magnitude-big_body_12 v s negative sp (zero_digit e z) =
    rw e (is_big_decimal_int-split_sign v s negative sp ∙ ap is_decimal e)
Magnitude-big_body_12 v s negative sp (decimal i z) =
    big_body_12-no_zero v s z
    ∙ is_big_decimal_int-split_sign v s negative sp
    ∙ no_zero-IsNumeral s i z
Magnitude-big_body_12 v s negative sp (hex ds (inl e) i) =
    rw e (IsNumeral-digits 16 is_hexdigit ds to_digit-hexdigit i)
Magnitude-big_body_12 v s negative sp (hex ds (inr e) i) =
    rw e (IsNumeral-digits 16 is_hexdigit ds to_digit-hexdigit i)
Magnitude-big_body_12 v s negative sp (octal ds (inl e) i) =
    rw e (IsNumeral-digits 8 is_octal ds to_digit-octal i)
Magnitude-big_body_12 v s negative sp (octal ds (inr e) i) =
    rw e (IsNumeral-digits 8 is_octal ds to_digit-octal i)
