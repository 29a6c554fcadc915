-- ===== src/Emit/Float.antt =====
-- The spelling of floats (`canonical_float` of src/emit_util.rs).
pub mod Typed
mod Tests
use yamlrocks.Common.{
  ℕ, Bool, true, false, not, Option, none, some, [], ◌∷◌, ◌++◌, Text, codes, contains, ltb, ◌==◌,
  if◌then◌else◌, ◌>>=◌,
}
use yamlrocks.Common.Int.{ℤ, pos, negsuc, nat_abs}
use yamlrocks.Common.Decimal.{zero_padded}

-- What the code asks of the standard library: tests of an `f64`, its texts under `{}` and `{:e}`, and
-- `str::parse` for `i32`. Nothing is assumed of it.
pub record Formats (F : Type 0) : Type 0 where
  pub is_infinite : F → Bool
  pub is_sign_positive : F → Bool
  pub is_nan : F → Bool
  pub display : F → Text
  pub scientific : F → Text
  pub parse_i32 : Text → Option ℤ

-- `text.split_once(c)`
abbrev pub split_once : Text → ℕ → Option (Text × Text)
split_once [] c = none
split_once (x ∷ xs) c =
    let rest = split_once xs c in
    if x == c then some ([], xs) else (do (front, back) ← rest; some (x ∷ front, back))

abbrev pub or_zero : Option ℤ → ℤ
or_zero none = pos 0
or_zero (some z) = z

abbrev pub with_point : Text → Text
with_point s = if contains s b'.' then s else s ++ codes ".0"

-- `(-4..16).contains(&exp)`
abbrev pub in_range : ℤ → Bool
in_range (pos n) = ltb n 16
in_range (negsuc n) = ltb n 4

abbrev pub sign_of : ℤ → ℕ
sign_of (pos n) = b'+'
sign_of (negsuc n) = b'-'

-- `unwrap_or((sci.as_str(), "0"))`
abbrev pub parts_of : Text → Option (Text × Text) → Text × Text
parts_of sci none = (sci, codes "0")
parts_of sci (some p) = p

module _ {F : Type 0} (std : Formats F) where
  unfoldable pub scientific_exponent : F → ℤ
  scientific_exponent f = or_zero (do (_, e) ← split_once (std.scientific f) b'e'; std.parse_i32 e)

  -- The arm of large and small magnitudes
  unfoldable pub scientific_text : F → Text
  scientific_text f =
      let parts = parts_of (std.scientific f) (split_once (std.scientific f) b'e') in
      let exp = or_zero (std.parse_i32 parts.1) in
      with_point parts.0 ++ (b'e' ∷ sign_of exp ∷ zero_padded 2 (nat_abs exp))

  unfoldable pub canonical_float : F → Text
  unfolding scientific_exponent scientific_text
  canonical_float f =
      if std.is_infinite f
      then (if std.is_sign_positive f then codes ".inf" else codes "-.inf")
      else if std.is_nan f
      then codes ".nan"
      else if not (in_range (scientific_exponent f))
      then scientific_text f
      else with_point (std.display f)
