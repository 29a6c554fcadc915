-- ===== src/Resolver/Schema/Tags.antt =====
-- Tagged scalars under both schemas (src/resolver/mod.rs).
use yamlrocks.Common.{Bool, false, Text, codes, some, ◌≡◌, refl}
use yamlrocks.Resolver.Kind.{ScalarStyle, Float64}
use yamlrocks.Resolver.Yaml12.{is_true_12, is_false_12}
use yamlrocks.Resolver.Yaml11.{try_parse_bool_11}
use yamlrocks.Resolver.Schema.{yaml11, yaml_11_divergence}

module _ {F : Type 0} (f64 : Float64 F) where
  -- A boolean of YAML 1.1 alone that is tagged `!!bool` is reported as a divergence, whatever its
  -- style is.
  pub divergence-bool_tag :
      (value : Text) (style : ScalarStyle) (b : Bool)
      → try_parse_bool_11 false value ≡ some b
      → is_true_12 value ≡ false
      → is_false_12 value ≡ false
      → yaml_11_divergence f64 yaml11 value style (some (codes "!!bool"))
        ≡ some (codes "bool", codes "str")
  unfolding yaml_11_divergence
  divergence-bool_tag value style b h t n = rw (h, t, n) refl
