-- ===== src/Resolver/Tests.antt =====
-- The theorems on resolution at concrete scalars.
use yamlrocks.Common.{
  Ensures, true, false, none, some, [], ◌∷◌, ◌++◌, Text, codes, ◌≤◌, ◌<◌, ◌≡◌, ◌↔◌, ◌⊎◌, inl, ◌^◌,
  refl, arith,
}
use yamlrocks.Common.Int.{ℤ, pos, negsuc, nat_abs, i64_max}
use yamlrocks.Common.Decimal.{IsCanonicalDecimal}
use yamlrocks.Common.Digits.{IsNumeral, place_value, to_digit}
use yamlrocks.Resolver.Kind.{plain, Float64, int, big_int, str, ResolvedValue}
use yamlrocks.Resolver.Decimal.{radix_to_decimal}
use yamlrocks.Resolver.Decimal.Value.{radix_to_decimal-IsCanonicalDecimal}
use yamlrocks.Resolver.Yaml12.{classify_plain_12}
use yamlrocks.Resolver.Yaml12.Grammar.{hex}
use yamlrocks.Resolver.Yaml12.Literals.{Literal, bare}
use yamlrocks.Resolver.Yaml12.Integers.{classify-int_iff, classify-big_int_iff}
use yamlrocks.Resolver.Yaml11.Range.{Fits, try_parse_int_11-Fits}
use yamlrocks.Resolver.Yaml11.{try_parse_int_11, classify_plain_11, try_parse_bool_11}
use yamlrocks.Resolver.Schema.{yaml12, yaml11, resolve, yaml_11_divergence}
use yamlrocks.Resolver.Schema.Tags.{divergence-bool_tag}
use yamlrocks.Resolver.Schema.Narrow.{classify-pyyaml}
use yamlrocks.Resolver.Schema.Big.{IsDecimalText, resolve-big_int, resolve-plus}
use yamlrocks.Resolver.Timestamp.{
  Timestamp, date_time, to_iso, parse, number, parse_time, time_separator, fraction, micros_of,
  zone, zone_offset, zone_minutes, checked, valid_date,
}
use yamlrocks.Resolver.Timestamp.RoundTrip.{IsValid, parse-to_iso}
use yamlrocks.Resolver.Timestamp.Valid.{parse-IsValid, parse-to_iso-parse}

-- Floats as their texts
abbrev texts : Float64 Text
texts = record {
  parse = λ s. some s;
  infinity = codes "inf";
  neg_infinity = codes "-inf";
  nan = codes "nan";
  of_ℕ = λ n. [];
  add = λ a b. a ++ b;
  mul = λ a b. a ++ b;
  neg = λ a. b'-' ∷ a;
}

classify-int_iff_example :
    (classify_plain_12 texts (codes "0x1F") ≡ int (pos 31))
    ↔ (Literal (codes "0x1F") (pos 31) × (31 ≤ i64_max))
classify-int_iff_example = classify-int_iff texts (codes "0x1F") (pos 31)

classify-big_int_iff_example :
    (classify_plain_12 texts (codes "9223372036854775808") ≡ big_int)
    ↔ ((z : ℤ) × Literal (codes "9223372036854775808") z × (i64_max < nat_abs z))
classify-big_int_iff_example = classify-big_int_iff texts (codes "9223372036854775808")

abbrev wide : Text
wide = codes "10000000000000000"

wide-value : place_value 16 wide ≡ some (2 ^ 64)
unfolding to_digit
wide-value = refl

wide-Literal : Literal (codes "0x" ++ wide) (pos (2 ^ 64))
wide-Literal = record {
  negative = false;
  body = codes "0x" ++ wide;
  magnitude = 2 ^ 64;
  sign = bare refl refl;
  body_is = hex wide (inl refl) (λ h. cc h, wide-value);
  value = refl;
}

resolve-big_int_example :
    (t : Text) × (resolve texts yaml12 (codes "0x" ++ wide) plain none ≡ ResolvedValue.big_int t)
    × IsDecimalText t (pos (2 ^ 64))
resolve-big_int_example =
    resolve-big_int texts (codes "0x" ++ wide) (pos (2 ^ 64)) wide-Literal (omega arith)

abbrev nines : Text
nines = codes "9999999999999999999"

nines-IsNumeral : IsNumeral 10 nines 9999999999999999999
unfolding to_digit
nines-IsNumeral = (λ h. cc h, refl)

resolve-plus_example :
    resolve texts yaml12 (b'+' ∷ nines) plain none ≡ ResolvedValue.big_int (b'+' ∷ nines)
resolve-plus_example =
    resolve-plus texts nines 9999999999999999999 nines-IsNumeral refl (omega arith)

radix_to_decimal-IsCanonicalDecimal_example : IsCanonicalDecimal (radix_to_decimal wide 16) (2 ^ 64)
radix_to_decimal-IsCanonicalDecimal_example =
    radix_to_decimal-IsCanonicalDecimal 16 wide (2 ^ 64) (omega arith) wide-value

yes-bool : try_parse_bool_11 false (codes "yes") ≡ some true
unfolding try_parse_bool_11
yes-bool = refl

divergence-bool_tag_example :
    yaml_11_divergence texts yaml11 (codes "yes") plain (some (codes "!!bool"))
    ≡ some (codes "bool", codes "str")
divergence-bool_tag_example = divergence-bool_tag texts (codes "yes") plain true yes-bool refl refl

classify-pyyaml_example :
    (classify_plain_11 texts true (codes "y") ≡ classify_plain_11 texts false (codes "y"))
    ⊎ (classify_plain_11 texts true (codes "y") ≡ str)
classify-pyyaml_example = classify-pyyaml texts (codes "y")

abbrev evening : Timestamp
evening =
    date_time (record { year = 2001; month = 12; day = 14 })
      (record { hour = 21; minute = 59; second = 43; microsecond = 100000 }) (some (negsuc 299))

evening-parse : parse (codes "2001-12-14t21:59:43.10-5:00") ≡ some evening
unfolding parse number to_digit parse_time time_separator fraction micros_of zone zone_offset
    zone_minutes checked valid_date
evening-parse = refl

evening-IsValid : IsValid evening
evening-IsValid = parse-IsValid (codes "2001-12-14t21:59:43.10-5:00") evening evening-parse

parse-to_iso_example : parse (to_iso evening) ≡ some evening
parse-to_iso_example = parse-to_iso evening evening-IsValid

parse-IsValid_example : IsValid evening
parse-IsValid_example = parse-IsValid (codes "2001-12-14t21:59:43.10-5:00") evening evening-parse

parse-to_iso-parse_example : parse (to_iso evening) ≡ some evening
parse-to_iso-parse_example =
    parse-to_iso-parse (codes "2001-12-14t21:59:43.10-5:00") evening evening-parse

try_parse_int_11-Fits_example : Ensures Fits (try_parse_int_11 (codes "-190:20:30"))
try_parse_int_11-Fits_example = try_parse_int_11-Fits (codes "-190:20:30")
