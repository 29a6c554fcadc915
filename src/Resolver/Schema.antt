-- ===== src/Resolver/Schema.antt =====
-- The choice of a schema, and resolution under it (src/resolver/mod.rs).
pub mod Tags
pub mod Narrow
pub mod Big
use Prim.Native.String.{String}
use yamlrocks.Common.{
  Bool, true, false, not, ◌&&◌, Option, none, some, Text, codes, text_eq, if◌then◌else◌,
}
use yamlrocks.Resolver.Decimal.{big_int_to_decimal}
use yamlrocks.Resolver.Kind.{
  ScalarStyle, Float64, ScalarKind, null, bool, int, big_int, float, str, merge, ResolvedValue,
}
use yamlrocks.Resolver.Yaml11.{classify_11}
use yamlrocks.Resolver.Yaml12.{classify_12}

-- `Schema`
pub data Schema : Type 0 where
  yaml12 yaml11 yaml11_pyyaml : Schema

-- `Schema::new`
unfoldable pub new : Bool → Bool → Schema
new yaml_11 pyyaml_compat =
    if pyyaml_compat then yaml11_pyyaml else if yaml_11 then yaml11 else yaml12

unfoldable pub is_yaml_11 : Schema → Bool
is_yaml_11 yaml12 = false
is_yaml_11 _ = true

-- `kind_name`
unfoldable pub kind_name : {F : Type 0} → ScalarKind F → Text
kind_name null = codes "null"
kind_name (bool _) = codes "bool"
kind_name (int _) = codes "int"
kind_name big_int = codes "int"
kind_name (float _) = codes "float"
kind_name str = codes "str"
kind_name merge = codes "merge"

-- `unwrap_or_else(|| value.to_owned())`
abbrev pub or_text : Option Text → Text → Text
or_text none value = value
or_text (some t) value = t

-- `Resolver::resolve` on the kind of `value`
unfoldable pub resolve_kind : {F : Type 0} → Text → ScalarKind F → ResolvedValue F
unfolding big_int_to_decimal
resolve_kind value null = ResolvedValue.null
resolve_kind value (bool b) = ResolvedValue.bool b
resolve_kind value (int i) = ResolvedValue.int i
resolve_kind value big_int = ResolvedValue.big_int (or_text (big_int_to_decimal value) value)
resolve_kind value (float f) = ResolvedValue.float f
resolve_kind value str = ResolvedValue.string value
resolve_kind value merge = ResolvedValue.string (codes "<<")

module _ {F : Type 0} (f64 : Float64 F) where
  -- `Schema::classify`
  unfoldable pub classify : Schema → Text → ScalarStyle → Option Text → ScalarKind F
  unfolding classify_12 classify_11
  classify yaml12 value style tag = classify_12 f64 value style tag
  classify yaml11 value style tag = classify_11 f64 false value style tag
  classify yaml11_pyyaml value style tag = classify_11 f64 true value style tag

  -- `Schema::resolve`
  unfoldable pub resolve : Schema → Text → ScalarStyle → Option Text → ResolvedValue F
  unfolding classify resolve_kind
  resolve schema value style tag = resolve_kind value (classify schema value style tag)

  unfoldable pub yaml_11_divergence :
      Schema → Text → ScalarStyle → Option Text → Option (Text × Text)
  unfolding classify kind_name
  yaml_11_divergence schema value style tag =
      let n11 = kind_name (classify schema value style tag) in
      let n12 = kind_name (classify yaml12 value style tag) in
      if not (text_eq n11 n12) && not (text_eq n11 (codes "str")) then some (n11, n12) else none
