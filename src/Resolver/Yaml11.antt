-- ===== src/Resolver/Yaml11.antt =====
-- The YAML 1.1 schema (src/resolver/yaml11.rs), and PyYAML's narrower reading of it, `compat`.
pub mod Range
use yamlrocks.Common.{
  ℕ, ◌+◌, ◌*◌, ◌^◌, ◌-◌, ◌-◌, Bool, true, false, not, ◌&&◌, ◌||◌, Option, none, some, List, [], ◌∷◌,
  Text, codes, one_of, text_eq, contains, starts_with, without, split, is_empty, all, any, drop,
  length, ltb, ◌==◌, if◌then◌else◌, between, ◌>>=◌, guard, ◌>>◌, or_else,
}
use yamlrocks.Common.Digits.{is_digit, from_str_radix, from_str_unsigned, within}
use yamlrocks.Common.Int.{ℤ, pos, negsuc, neg_ℤ, i64_max}
use yamlrocks.Resolver.Atoms.{
  is_null, parse_special_float, split_sign, starts_with_sign, from_radix_unsigned,
}
use yamlrocks.Resolver.Kind.{
  ScalarStyle, plain, Float64, ScalarKind, null, bool, float, str, merge, number_kind,
}
use yamlrocks.Resolver.Yaml12.{strip_either, is_hexdigit, is_octal, digits_or, core_tag, or_str}

-- Removing the separators of a text that has none leaves it as it is, so that the borrowed and the
-- owned case of the source are one.
abbrev pub strip_underscores : Text → Text
strip_underscores = without b'_'

unfoldable pub try_parse_bool_11 : Bool → Text → Option Bool
try_parse_bool_11 compat value =
    if not compat && one_of value ("y" ∷ "Y" ∷ [])
    then some true
    else if not compat && one_of value ("n" ∷ "N" ∷ [])
    then some false
    else if one_of value
        ("yes" ∷ "Yes" ∷ "YES" ∷ "true" ∷ "True" ∷ "TRUE" ∷ "on" ∷ "On" ∷ "ON" ∷ [])
    then some true
    else if one_of value
        ("no" ∷ "No" ∷ "NO" ∷ "false" ∷ "False" ∷ "FALSE" ∷ "off" ∷ "Off" ∷ "OFF" ∷ [])
    then some false
    else none

abbrev pub is_decimal_11 : Text → Bool
is_decimal_11 digits =
    not (is_empty digits)
    && (all is_digit digits && (text_eq digits (codes "0") || not (starts_with digits (codes "0"))))

-- The text behind the sign, with no separators.
unfoldable pub cleaned_rest : Text → Option (Bool × Text)
unfolding split_sign
cleaned_rest value = do (negative, rest) ← split_sign value; some (negative, strip_underscores rest)

unfoldable pub is_big_decimal_int_11 : Text → Bool
unfolding cleaned_rest
is_big_decimal_int_11 value = elim (cleaned_rest value) [
  | none ↦ false
  | some (negative, digits) ↦ is_decimal_11 digits
]

unfoldable pub big_body_11 : Text → Text → Bool
unfolding is_big_decimal_int_11
big_body_11 value rest = digits_or is_hexdigit (strip_either rest (codes "0x") (codes "0X")) (
    digits_or (λ b. b == b'0' || b == b'1') (strip_either rest (codes "0b") (codes "0B"))
      (if ltb 1 (length rest) && starts_with rest (codes "0")
        then all is_octal (drop 1 rest)
        else is_big_decimal_int_11 value))

unfoldable pub is_big_int_11 : Text → Bool
unfolding big_body_11
is_big_int_11 value = elim (cleaned_rest value) [
  | none ↦ false
  | some (negative, rest) ↦ big_body_11 value rest
]

-- `part.parse::<i64>()` behind the test for a sign, where a result is never negative.
abbrev pub magnitude_of : ℤ → Option ℕ
magnitude_of (pos n) = some n
magnitude_of (negsuc n) = none

-- One round of the loop of `parse_sexagesimal_int`; the flag is `i == 0`. The sum fits wherever
-- `checked_mul` and `checked_add` answer.
unfoldable pub sexagesimal_digit : Bool → ℕ → Text → Option ℕ
unfolding from_str_radix
sexagesimal_digit first result part = do
  guard (not (starts_with_sign part))
  z ← from_str_radix part 10
  n ← magnitude_of z
  guard (
      if first
      then not (starts_with part (codes "0"))
      else not (ltb 2 (length part) || not (ltb n 60)))
  within i64_max (result * 60 + n)

unfoldable pub sexagesimal_from : Bool → ℕ → List Text → Option ℕ
unfolding sexagesimal_digit
sexagesimal_from first result [] = some result
sexagesimal_from first result (part ∷ parts) = do
  next ← sexagesimal_digit first result part
  sexagesimal_from false next parts

unfoldable pub parse_sexagesimal_int : Text → Option ℤ
unfolding sexagesimal_from split
parse_sexagesimal_int value = do n ← sexagesimal_from true 0 (split b':' value); some (pos n)

-- The body of `try_parse_int_11` behind the sign.
unfoldable pub int_body_11 : Text → Option ℤ
unfolding from_radix_unsigned parse_sexagesimal_int
int_body_11 clean =
    if is_empty clean
    then none
    else if starts_with clean (codes "0x") || starts_with clean (codes "0X")
    then from_radix_unsigned (drop 2 clean) 16
    else if starts_with clean (codes "0b") || starts_with clean (codes "0B")
    then from_radix_unsigned (drop 2 clean) 2
    else if starts_with clean (codes "0") && (ltb 1 (length clean) && all is_digit clean)
    then from_radix_unsigned (drop 1 clean) 8
    else if contains clean b':'
    then parse_sexagesimal_int clean
    else from_radix_unsigned clean 10

unfoldable pub try_parse_int_11 : Text → Option ℤ
unfolding cleaned_rest int_body_11
try_parse_int_11 value = do
  (negative, clean) ← cleaned_rest value
  result ← int_body_11 clean
  some (if negative then neg_ℤ result else result)

-- `position(|b| b == b'e' || b == b'E')` and the byte behind it
abbrev pub signed_exponent : Text → Bool
signed_exponent [] = true
signed_exponent (c ∷ cs) =
    if c == b'e' || c == b'E'
    then starts_with cs (b'+' ∷ []) || starts_with cs (b'-' ∷ [])
    else signed_exponent cs

unfoldable pub pyyaml_float_shape : Text → Bool
pyyaml_float_shape value = if not (contains value b'.') then false else signed_exponent value

-- The part in front of the first `.`
abbrev pub integer_part : Text → Text
integer_part [] = []
integer_part (c ∷ cs) = if c == b'.' then [] else c ∷ integer_part cs

-- `Ok(n) if n < 60`
abbrev pub is_base_60 : Option ℕ → Bool
is_base_60 (some n) = ltb n 60
is_base_60 none = false

-- `0..=9 | - | + | . | _` at the first byte
abbrev pub number_start_11 : Text → Bool
number_start_11 [] = false
number_start_11 (b ∷ _) = between b'0' b'9' b || b == b'-' || b == b'+' || b == b'.' || b == b'_'

-- `value.strip_prefix(['+', '-']).unwrap_or(value)`
abbrev pub after_sign : Text → Text
after_sign [] = []
after_sign (c ∷ cs) = if c == b'+' || c == b'-' then cs else c ∷ cs

module _ {F : Type 0} (f64 : Float64 F) where
  -- One round of the loop of `parse_sexagesimal_float`; the flags are `i == 0` and `i == last`.
  unfoldable pub float_digit : Bool → Bool → F → Text → Option F
  unfolding from_str_unsigned
  float_digit first last result part = do
    guard (last || not (contains part b'.'))
    guard (first || is_base_60 (from_str_unsigned (2 ^ 32 - 1) (integer_part part)))
    n ← f64.parse part
    some (f64.add (f64.mul result (f64.of_ℕ 60)) n)

  unfoldable pub float_digits : Bool → F → List Text → Option F
  unfolding float_digit
  float_digits first result [] = some result
  float_digits first result (part ∷ parts) = do
    next ← float_digit first (is_empty parts) result part
    float_digits false next parts

  unfoldable pub parse_sexagesimal_float : Text → Option F
  unfolding split_sign float_digits split
  parse_sexagesimal_float value = do
    (negative, rest) ← split_sign value
    let parts = split b':' rest
    guard (not (ltb (length parts) 2))
    result ← float_digits true (f64.of_ℕ 0) parts
    some (if negative then f64.neg result else result)

  -- `try_parse_float_11` behind the special spellings, on the text with no separators.
  abbrev pub plain_float_11 : Bool → Text → Option F
  plain_float_11 compat clean =
      if not (any (λ b. b == b'.' || b == b'e' || b == b'E') clean)
      then none
      else if contains clean b':' && contains clean b'.'
      then parse_sexagesimal_float clean
      else if compat && not (pyyaml_float_shape clean)
      then none
      else f64.parse clean

  unfoldable pub try_parse_float_11 : Bool → Text → Option F
  try_parse_float_11 compat value =
      or_else (parse_special_float f64 value) (plain_float_11 compat (strip_underscores value))

  unfoldable pub try_parse_float_11_tagged : Text → Option F
  unfolding parse_special_float parse_sexagesimal_float
  try_parse_float_11_tagged value = elim (parse_special_float f64 value) [
    | some f ↦ some f
    | none ↦
        let clean = strip_underscores value in
        if contains clean b':' then parse_sexagesimal_float clean else f64.parse clean
  ]

  unfoldable pub classify_number_11 : Bool → Text → ScalarKind F
  unfolding try_parse_int_11 is_big_int_11 try_parse_float_11
  classify_number_11 compat value =
      number_kind (try_parse_int_11 value) (is_big_int_11 value) (try_parse_float_11 compat value)

  -- `classify_plain_11` behind the words.
  unfoldable pub classify_rest_11 : Bool → Text → ScalarKind F
  unfolding classify_number_11
  classify_rest_11 compat value =
      if not (number_start_11 value)
      then str
      else if compat && starts_with (after_sign value) (codes "_")
      then str
      else classify_number_11 compat value

  abbrev pub bool_or : Option Bool → ScalarKind F → ScalarKind F
  bool_or (some b) k = bool b
  bool_or none k = k

  unfoldable pub classify_plain_11 : Bool → Text → ScalarKind F
  classify_plain_11 compat value =
      if is_null value
      then null
      else if text_eq value (codes "<<")
      then merge
      else bool_or (try_parse_bool_11 compat value) (classify_rest_11 compat value)

  unfoldable pub classify_tagged_11 : Bool → Text → Text → ScalarKind F
  unfolding is_null try_parse_bool_11 try_parse_int_11 is_big_int_11 try_parse_float_11_tagged
  classify_tagged_11 compat value tag =
      if core_tag tag (codes "null")
      then (if is_null value then null else str)
      else if core_tag tag (codes "bool")
      then or_str f64 bool (try_parse_bool_11 compat value)
      else if core_tag tag (codes "int")
      then number_kind (try_parse_int_11 value) (is_big_int_11 value) none
      else if core_tag tag (codes "float")
      then or_str f64 float (try_parse_float_11_tagged value)
      else if core_tag tag (codes "merge")
      then merge
      else str

  -- `Yaml11Resolver.classify`
  unfoldable pub classify_11 : Bool → Text → ScalarStyle → Option Text → ScalarKind F
  unfolding classify_plain_11 classify_tagged_11
  classify_11 compat value style (some tag) = classify_tagged_11 compat value tag
  classify_11 compat value plain none = classify_plain_11 compat value
  classify_11 compat value _ none = str
