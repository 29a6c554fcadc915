-- ===== src/Resolver/Yaml12.antt =====
-- The YAML 1.2 core schema (src/resolver/yaml12.rs).

pub mod Grammar
mod Bodies
pub mod Literals
pub mod Integers
use yamlrocks.Common.{
  ℕ, Bool, true, false, not, ◌&&◌, ◌||◌, Option, none, some, [], ◌∷◌, ◌++◌, Text, codes, one_of,
  text_eq, starts_with, strip_prefix, is_empty, all, any, drop, ◌==◌, if◌then◌else◌, between, ◌>>=◌,
  or_else,
}
use yamlrocks.Common.Int.{ℤ, pos, neg_ℤ}
use yamlrocks.Resolver.Atoms.{
  is_null, parse_special_float, split_sign, from_radix_unsigned, is_big_decimal_int,
}
use yamlrocks.Resolver.Kind.{
  ScalarStyle, plain, Float64, ScalarKind, null, bool, int, big_int, float, str, merge, number_kind,
}

-- `rest.strip_prefix(a).or_else(|| rest.strip_prefix(b))`
abbrev pub strip_either : Text → Text → Text → Option Text
strip_either rest a b = or_else (strip_prefix rest a) (strip_prefix rest b)

abbrev pub is_hexdigit : ℕ → Bool
is_hexdigit c = between b'0' b'9' c || between b'a' b'f' c || between b'A' b'F' c

abbrev pub is_octal : ℕ → Bool
is_octal c = between b'0' b'7' c

-- The body of `try_parse_int_12` behind the sign.
unfoldable pub int_body_12 : Text → Option ℤ
unfolding from_radix_unsigned
int_body_12 rest =
    if starts_with rest (codes "0x") || starts_with rest (codes "0X")
    then from_radix_unsigned (drop 2 rest) 16
    else if starts_with rest (codes "0o") || starts_with rest (codes "0O")
    then from_radix_unsigned (drop 2 rest) 8
    else elim (strip_prefix rest (codes "0")) [
      | some after_zero ↦ if is_empty after_zero then some (pos 0) else none
      | none ↦ from_radix_unsigned rest 10
    ]

unfoldable pub try_parse_int_12 : Text → Option ℤ
unfolding split_sign int_body_12
try_parse_int_12 value = elim (split_sign value) [
  | none ↦ none
  | some (negative, rest) ↦ do
    result ← int_body_12 rest
    some (if negative then neg_ℤ result else result)
]

-- One arm of the prefix ladder: a body of at least one such digit, or the arms behind it.
abbrev pub digits_or : (ℕ → Bool) → Option Text → Bool → Bool
digits_or p (some body) later = not (is_empty body) && all p body
digits_or p none later = later

unfoldable pub big_body_12 : Text → Text → Bool
unfolding is_big_decimal_int
big_body_12 value rest =
    digits_or is_hexdigit (strip_either rest (codes "0x") (codes "0X"))
      (digits_or is_octal (strip_either rest (codes "0o") (codes "0O")) (is_big_decimal_int value))

unfoldable pub is_big_int_12 : Text → Bool
unfolding split_sign big_body_12
is_big_int_12 value = elim (split_sign value) [
  | none ↦ false
  | some (negative, rest) ↦ big_body_12 value rest
]

-- `!!tag` or its long form
abbrev pub core_tag : Text → Text → Bool
core_tag tag name =
    text_eq tag (b'!' ∷ b'!' ∷ name) || text_eq tag (codes "tag:yaml.org,2002:" ++ name)

abbrev pub is_true_12 : Text → Bool
is_true_12 value = one_of value ("true" ∷ "True" ∷ "TRUE" ∷ [])

abbrev pub is_false_12 : Text → Bool
is_false_12 value = one_of value ("false" ∷ "False" ∷ "FALSE" ∷ [])

-- `b'0'..=b'9' | b'-' | b'+' | b'.'` at the first byte
abbrev pub number_start_12 : Text → Bool
number_start_12 [] = false
number_start_12 (b ∷ _) = between b'0' b'9' b || b == b'-' || b == b'+' || b == b'.'

module _ {F : Type 0} (f64 : Float64 F) where
  unfoldable pub try_parse_float_12 : Text → Option F
  unfolding parse_special_float
  try_parse_float_12 value = elim (parse_special_float f64 value) [
    | some f ↦ some f
    | none ↦
        if not (any (λ b. b == b'.' || b == b'e' || b == b'E') value) then none else f64.parse value
  ]

  unfoldable pub try_parse_float_12_tagged : Text → Option F
  unfolding parse_special_float
  try_parse_float_12_tagged value = elim (parse_special_float f64 value) [
    | some f ↦ some f
    | none ↦ f64.parse value
  ]

  -- From an optional value to a kind, or a string.
  abbrev pub or_str : {A : Type 0} → (A → ScalarKind F) → Option A → ScalarKind F
  or_str kind none = str
  or_str kind (some a) = kind a

  -- The numeric arms of `classify_plain_12`.
  unfoldable pub classify_number_12 : Text → ScalarKind F
  unfolding try_parse_int_12 is_big_int_12 try_parse_float_12
  classify_number_12 value =
      number_kind (try_parse_int_12 value) (is_big_int_12 value) (try_parse_float_12 value)

  unfoldable pub classify_plain_12 : Text → ScalarKind F
  unfolding is_null classify_number_12
  classify_plain_12 value =
      if is_null value
      then null
      else if text_eq value (codes "<<")
      then merge
      else if is_true_12 value
      then bool true
      else if is_false_12 value
      then bool false
      else if not (number_start_12 value)
      then str
      else classify_number_12 value

  unfoldable pub classify_tagged_12 : Text → Text → ScalarKind F
  unfolding is_null try_parse_int_12 is_big_int_12 try_parse_float_12_tagged
  classify_tagged_12 value tag =
      if core_tag tag (codes "null")
      then (if is_null value then null else str)
      else if core_tag tag (codes "bool")
      then (if is_true_12 value then bool true else if is_false_12 value then bool false else str)
      else if core_tag tag (codes "int")
      then number_kind (try_parse_int_12 value) (is_big_int_12 value) none
      else if core_tag tag (codes "float")
      then or_str float (try_parse_float_12_tagged value)
      else str

  -- `Yaml12Resolver.classify`
  unfoldable pub classify_12 : Text → ScalarStyle → Option Text → ScalarKind F
  unfolding classify_plain_12 classify_tagged_12
  classify_12 value style (some tag) = classify_tagged_12 value tag
  classify_12 value plain none = classify_plain_12 value
  classify_12 value _ none = str
