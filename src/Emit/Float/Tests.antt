-- ===== src/Emit/Float/Tests.antt =====
-- The spelling of floats at concrete floats.
use yamlrocks.Common.{true, false, some, [], Text, codes, contains, if◌then◌else◌, ◌≡◌, ◌≢◌, refl}
use yamlrocks.Common.Int.{pos, negsuc}
use yamlrocks.Common.Decimal.{zero_padded}
use yamlrocks.Resolver.Kind.{Float64, int, big_int}
use yamlrocks.Resolver.Yaml12.{classify_plain_12}
use yamlrocks.Emit.Float.{Formats, scientific_exponent, scientific_text, canonical_float}
use yamlrocks.Emit.Float.Typed.{canonical_float-not_integer}

-- A float is its text under `{:e}` here, and texts stand for the arithmetic.
abbrev formats : Formats Text
formats = record {
  is_infinite = λ s. false;
  is_sign_positive = λ s. true;
  is_nan = λ s. false;
  display = λ s. codes "1";
  scientific = λ s. s;
  parse_i32 = λ s.
      if contains s b'-'
      then some (negsuc 6)
      else if contains s b'3'
      then some (pos 23)
      else some (pos 0);
}

abbrev texts : Float64 Text
texts = record {
  parse = λ s. some s;
  infinity = codes "inf";
  neg_infinity = codes "-inf";
  nan = codes "nan";
  of_ℕ = λ n. [];
  add = λ a b. a;
  mul = λ a b. a;
  neg = λ a. a;
}

large : canonical_float formats (codes "6.022e23") ≡ codes "6.022e+23"
unfolding canonical_float scientific_exponent scientific_text zero_padded
large = refl

small : canonical_float formats (codes "1e-7") ≡ codes "1.0e-07"
unfolding canonical_float scientific_exponent scientific_text zero_padded
small = refl

whole : canonical_float formats (codes "1e0") ≡ codes "1.0"
unfolding canonical_float scientific_exponent scientific_text
whole = refl

canonical_float-not_integer_example :
    (classify_plain_12 texts (canonical_float formats (codes "1e0")) ≢ int (pos 1))
    × (classify_plain_12 texts (canonical_float formats (codes "1e0")) ≢ big_int)
canonical_float-not_integer_example =
    canonical_float-not_integer formats texts (codes "1e0") (pos 1)
