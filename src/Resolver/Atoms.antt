-- ===== src/Resolver/Atoms.antt =====
-- The atoms that both schemas share (src/resolver/mod.rs): null, special floats, the sign, the
-- unsigned radix parse, and decimal integers of any size.
use yamlrocks.Common.{
  ℕ, Bool, true, false, not, ◌&&◌, ◌||◌, Option, none, some, [], ◌∷◌, Text, codes, text_eq, one_of,
  starts_with, is_empty, all, ◌==◌, if◌then◌else◌,
}
use yamlrocks.Common.Digits.{is_digit, from_str_radix}
use yamlrocks.Common.Int.{ℤ}
use yamlrocks.Resolver.Kind.{Float64}

unfoldable pub is_null : Text → Bool
is_null value = is_empty value || one_of value ("~" ∷ "null" ∷ "Null" ∷ "NULL" ∷ [])

unfoldable pub parse_special_float : {F : Type 0} → Float64 F → Text → Option F
parse_special_float f64 value =
    if one_of value (".inf" ∷ ".Inf" ∷ ".INF" ∷ "+.inf" ∷ "+.Inf" ∷ "+.INF" ∷ [])
    then some f64.infinity
    else if one_of value ("-.inf" ∷ "-.Inf" ∷ "-.INF" ∷ [])
    then some f64.neg_infinity
    else if one_of value (".nan" ∷ ".NaN" ∷ ".NAN" ∷ [])
    then some f64.nan
    else none

-- `None` if nothing stands behind the sign
abbrev pub nonempty_rest : Bool → Text → Option (Bool × Text)
nonempty_rest negative [] = none
nonempty_rest negative (c ∷ cs) = some (negative, c ∷ cs)

unfoldable pub split_sign : Text → Option (Bool × Text)
split_sign [] = none
split_sign (c ∷ cs) =
    if c == b'-'
    then nonempty_rest true cs
    else if c == b'+'
    then nonempty_rest false cs
    else nonempty_rest false (c ∷ cs)

-- `body.starts_with(['+', '-'])`
abbrev pub starts_with_sign : Text → Bool
starts_with_sign s = starts_with s (b'+' ∷ []) || starts_with s (b'-' ∷ [])

unfoldable pub from_radix_unsigned : Text → ℕ → Option ℤ
unfolding from_str_radix
from_radix_unsigned body radix = if starts_with_sign body then none else from_str_radix body radix

-- `value` behind its sign is all digits, with no leading zero unless it is `0`
abbrev pub is_decimal : Text → Bool
is_decimal rest =
    all is_digit rest && (text_eq rest (codes "0") || not (starts_with rest (codes "0")))

unfoldable pub is_big_decimal_int : Text → Bool
unfolding split_sign
is_big_decimal_int value = elim (split_sign value) [
  | none ↦ false
  | some (negative, rest) ↦ is_decimal rest
]
