-- ===== src/Resolver/Yaml11/Range.antt =====
-- The range of the integers of YAML 1.1 (src/resolver/yaml11.rs).
use yamlrocks.Common.{
  ℕ, zero, suc, ◌+◌, ◌*◌, ◌≤◌, ◌<◌, Bool, true, false, Option, none, some, List, [], ◌∷◌, Text,
  starts_with, ltb, leb, ◌||◌, ◌≡◌, refl, arith, guard, if◌then◌else◌, Ensures, Ensures-bind,
  Ensures-if, Ensures-elim, not, drop, codes, split, length, contains, is_empty, all, ◌&&◌,
}
use yamlrocks.Common.Int.{ℤ, pos, negsuc, neg_ℤ, nat_abs, i64_max}
use yamlrocks.Common.Digits.{is_digit, from_str_radix, from_str_radix-eq-some, within}
use yamlrocks.Resolver.Atoms.{from_radix_unsigned, starts_with_sign}
use yamlrocks.Resolver.Yaml11.{
  sexagesimal_digit, sexagesimal_from, magnitude_of, parse_sexagesimal_int, int_body_11,
  try_parse_int_11, cleaned_rest,
}

abbrev pub Fits : ℤ → Type 0
Fits z = nat_abs z ≤ i64_max

abbrev InRange : ℕ → Type 0
InRange n = n ≤ i64_max

no_sign : (a b : Bool) → (a || b) ≡ false → (a ≡ false) × (b ≡ false)
no_sign true b h = cc
no_sign false b h = (refl, h)

magnitude-Fits : (z : ℤ) (n : ℕ) → n ≤ i64_max → z ≡ pos n → Fits z
magnitude-Fits z n l h = rw (h) l

from_str_radix-Fits :
    (body : Text) (radix : ℕ)
    → 0 < radix
    → starts_with_sign body ≡ false
    → (o : Option ℤ) → from_str_radix body radix ≡ o
    → Ensures Fits o
from_str_radix-Fits body radix p h none e = tt
from_str_radix-Fits body radix p h (some z) e =
    let (a, b) = no_sign (starts_with body (b'+' ∷ [])) (starts_with body (b'-' ∷ [])) h in
    let (n, i, l, q) = from_str_radix-eq-some body radix p a b e in magnitude-Fits z n l q

from_radix_unsigned-Fits :
    (body : Text) (radix : ℕ) → 0 < radix → Ensures Fits (from_radix_unsigned body radix)
unfolding from_radix_unsigned
from_radix_unsigned-Fits body radix p =
    Ensures-if Fits (starts_with_sign body) none (from_str_radix body radix) (λ _. tt)
      (λ h. from_str_radix-Fits body radix p h (from_str_radix body radix) refl)

within-le : (limit n : ℕ) → Ensures (λ m. m ≤ limit) (within limit n)
within-le limit n =
    Ensures-if (λ m. m ≤ limit) (leb n limit) (some n) none (λ h. ground arith) (λ _. tt)

sexagesimal_digit-le :
    (first : Bool) (result : ℕ) (part : Text)
    → Ensures InRange (sexagesimal_digit first result part)
unfolding sexagesimal_digit
sexagesimal_digit-le first result part =
    Ensures-bind InRange (guard (not (starts_with_sign part))) _ λ _ _.
      Ensures-bind InRange (from_str_radix part 10) _ λ z _.
        Ensures-bind InRange (magnitude_of z) _ λ n _.
          Ensures-bind InRange
            (guard (
              if first
              then not (starts_with part (codes "0"))
              else not (ltb 2 (length part) || not (ltb n 60))))
            _ λ _ _. within-le i64_max (result * 60 + n)

sexagesimal_from-le :
    (first : Bool) (result : ℕ) (parts : List Text)
    → result ≤ i64_max
    → Ensures InRange (sexagesimal_from first result parts)
unfolding sexagesimal_from
sexagesimal_from-le first result [] h = h
sexagesimal_from-le first result (part ∷ parts) h =
    Ensures-bind InRange (sexagesimal_digit first result part) _ λ next e.
      sexagesimal_from-le false next parts (
        Ensures-elim InRange (sexagesimal_digit first result part)
          (sexagesimal_digit-le first result part) e)

parse_sexagesimal_int-Fits : (value : Text) → Ensures Fits (parse_sexagesimal_int value)
unfolding parse_sexagesimal_int
parse_sexagesimal_int-Fits value =
    Ensures-bind Fits (sexagesimal_from true 0 (split b':' value)) _ λ n e.
      Ensures-elim InRange (sexagesimal_from true 0 (split b':' value))
        (sexagesimal_from-le true 0 (split b':' value) (omega arith)) e

int_body_11-Fits : (clean : Text) → Ensures Fits (int_body_11 clean)
unfolding int_body_11
int_body_11-Fits clean =
    let colon =
      if contains clean b':' then parse_sexagesimal_int clean else from_radix_unsigned clean 10 in
    let is_octal = starts_with clean (codes "0") && (ltb 1 (length clean) && all is_digit clean) in
    let octal = if is_octal then from_radix_unsigned (drop 1 clean) 8 else colon in
    let is_binary = starts_with clean (codes "0b") || starts_with clean (codes "0B") in
    let binary = if is_binary then from_radix_unsigned (drop 2 clean) 2 else octal in
    let is_hex = starts_with clean (codes "0x") || starts_with clean (codes "0X") in
    let hex = if is_hex then from_radix_unsigned (drop 2 clean) 16 else binary in
    Ensures-if Fits (is_empty clean) none hex (λ _. tt)
      λ _.
        Ensures-if Fits is_hex (from_radix_unsigned (drop 2 clean) 16) binary
          (λ _. from_radix_unsigned-Fits (drop 2 clean) 16 (omega arith))
          λ _.
            Ensures-if Fits is_binary (from_radix_unsigned (drop 2 clean) 2) octal
              (λ _. from_radix_unsigned-Fits (drop 2 clean) 2 (omega arith))
              λ _.
                Ensures-if Fits is_octal (from_radix_unsigned (drop 1 clean) 8) colon
                  (λ _. from_radix_unsigned-Fits (drop 1 clean) 8 (omega arith))
                  λ _.
                    Ensures-if Fits (contains clean b':') (parse_sexagesimal_int clean)
                      (from_radix_unsigned clean 10) (λ _. parse_sexagesimal_int-Fits clean)
                      (λ _. from_radix_unsigned-Fits clean 10 (omega arith))

neg-Fits : (z : ℤ) → Fits z → Fits (neg_ℤ z)
neg-Fits (pos zero) h = h
neg-Fits (pos (suc n)) h = h
neg-Fits (negsuc n) h = h

signed-Fits : (negative : Bool) (z : ℤ) → Fits z → Fits (if negative then neg_ℤ z else z)
signed-Fits true z h = neg-Fits z h
signed-Fits false z h = h

-- Every integer that `try_parse_int_11` answers has a magnitude of at most `i64::MAX`, so that
-- negating it does not overflow.
pub try_parse_int_11-Fits : (value : Text) → Ensures Fits (try_parse_int_11 value)
unfolding try_parse_int_11
try_parse_int_11-Fits value = Ensures-bind Fits (cleaned_rest value) _ λ p e.
    Ensures-bind Fits (int_body_11 p.1) _
      λ z e'. signed-Fits p.0 z (Ensures-elim Fits (int_body_11 p.1) (int_body_11-Fits p.1) e')
