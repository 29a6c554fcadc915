-- ===== src/Resolver/Kind.antt =====
-- The types of src/resolver/mod.rs, and the floating-point operations that the resolver calls.
use yamlrocks.Common.{ℕ, Bool, true, false, Option, none, some, ◌≡◌, refl, Text}
use yamlrocks.Common.Int.{ℤ}

-- `ScalarStyle` of src/scanner/token.rs
pub data ScalarStyle : Type 0 where
  plain single_quoted double_quoted literal folded : ScalarStyle

-- What the resolver asks of `f64`: the standard library's parser and the arithmetic of the
-- sexagesimal forms. Nothing is assumed of them, so that every theorem holds for each choice.
pub record Float64 (F : Type 0) : Type 0 where
  pub parse : Text → Option F
  pub infinity : F
  pub neg_infinity : F
  pub nan : F
  pub of_ℕ : ℕ → F
  pub add : F → F → F
  pub mul : F → F → F
  pub neg : F → F

-- `ScalarKind`
pub data ScalarKind (F : Type 0) : Type 0 where
  null big_int str merge : ScalarKind F
  bool : Bool → ScalarKind F
  int : ℤ → ScalarKind F
  float : F → ScalarKind F

-- The chain of attempts that both schemas make on a numeric text: an integer that fits, an integer
-- of any size, a float, and else a string.
abbrev pub number_kind : {F : Type 0} → Option ℤ → Bool → Option F → ScalarKind F
number_kind (some i) big f = int i
number_kind none true f = big_int
number_kind none false (some f) = float f
number_kind none false none = str

-- `ResolvedValue`
pub data ResolvedValue (F : Type 0) : Type 0 where
  null : ResolvedValue F
  bool : Bool → ResolvedValue F
  int : ℤ → ResolvedValue F
  big_int : Text → ResolvedValue F
  float : F → ResolvedValue F
  string : Text → ResolvedValue F

pub number_kind-int :
    {F : Type 0} (i : Option ℤ) (big : Bool) (f : Option F) (z : ℤ)
    → number_kind i big f ≡ int z
    → i ≡ some z
number_kind-int (some i) big f z h = cc
number_kind-int none true f z h = cc
number_kind-int none false (some f) z h = cc
number_kind-int none false none z h = cc

pub number_kind-big_int :
    {F : Type 0} (i : Option ℤ) (big : Bool) (f : Option F)
    → number_kind i big f ≡ big_int
    → (i ≡ none) × (big ≡ true)
number_kind-big_int (some i) big f h = cc
number_kind-big_int none true f h = (refl, refl)
number_kind-big_int none false (some f) h = cc
number_kind-big_int none false none h = cc
