-- ===== src/Resolver/Decimal.antt =====
-- Integers too large for 64 bits, brought to decimal text (src/resolver/mod.rs).
pub mod Value
use yamlrocks.Common.{
  ℕ, zero, suc, ◌+◌, ◌*◌, ◌/◌, ◌%◌, ◌<◌, Bool, true, false, not, ◌&&◌, ◌||◌, Option, none, some,
  List, [], ◌∷◌, ◌++◌, map, reverse, Text, codes, starts_with, strip_prefix, without, all, drop,
  length, ltb, ◌==◌, if◌then◌else◌, ◌>>=◌, or_else,
}
use yamlrocks.Common.Digits.{is_digit, to_digit}
use yamlrocks.Common.Decimal.{push_carry}
use yamlrocks.Resolver.Atoms.{split_sign}
use yamlrocks.Resolver.Yaml12.{strip_either}

-- One digit of the input: the slots in turn, little-endian, and then the carry that is left.
unfoldable pub mul_add : ℕ → ℕ → List ℕ → List ℕ
unfolding push_carry
mul_add radix carry [] = push_carry carry carry
mul_add radix carry (slot ∷ slots) =
    let v = slot * radix + carry in (v % 10) ∷ mul_add radix (v / 10) slots

-- `ch.to_digit(radix).unwrap_or(0)`
abbrev pub or_zero : Option ℕ → ℕ
or_zero (some d) = d
or_zero none = 0

abbrev pub digit_or_zero : ℕ → ℕ → ℕ
digit_or_zero radix ch = or_zero (to_digit radix ch)

unfoldable pub decimal_digits : ℕ → List ℕ → Text → List ℕ
decimal_digits radix digits [] = digits
decimal_digits radix digits (ch ∷ body) =
    decimal_digits radix (mul_add radix (digit_or_zero radix ch) digits) body

unfoldable pub radix_to_decimal : Text → ℕ → Text
unfolding decimal_digits mul_add to_digit
radix_to_decimal body radix = map (λ d. b'0' + d) (reverse (decimal_digits radix (0 ∷ []) body))

-- The radix and the body that the prefix of `rest` tells; `None` for a decimal text.
unfoldable pub radix_of : Text → Option (ℕ × Text)
radix_of rest =
    or_else (do b ← strip_either rest (codes "0x") (codes "0X"); some (16, b))
      (or_else (do b ← strip_either rest (codes "0o") (codes "0O"); some (8, b))
        (or_else (do b ← strip_either rest (codes "0b") (codes "0B"); some (2, b))
          (if ltb 1 (length rest) && (starts_with rest (codes "0") && all is_digit rest)
            then some (8, drop 1 rest)
            else none)))

unfoldable pub big_int_to_decimal : Text → Option Text
unfolding split_sign radix_of radix_to_decimal
big_int_to_decimal value = do
  (negative, rest) ← split_sign value
  (radix, body) ← radix_of (without b'_' rest)
  let decimal = radix_to_decimal body radix
  some (if negative then b'-' ∷ decimal else decimal)
