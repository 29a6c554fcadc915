-- ===== src/Resolver/Schema/Narrow.antt =====
-- How PyYAML's reading of YAML 1.1 narrows the schema (src/resolver/yaml11.rs).
use Prim.Native.String.{String}
use yamlrocks.Common.{
  Bool, true, false, ◌&&◌, ◌||◌, Bool-cases, false-ne-true, Option, none, some, [], ◌∷◌, Text,
  codes, one_of, text_eq, text_eq_iff, any, contains, starts_with, ◌==◌, ◌≡◌, ◌⊎◌, inl, inr, refl,
  ap, or_else,
}
use yamlrocks.Common.Int.{ℤ}
use yamlrocks.Resolver.Atoms.{is_null, parse_special_float}
use yamlrocks.Resolver.Kind.{Float64, ScalarKind, str, number_kind}
use yamlrocks.Resolver.Yaml11.{
  try_parse_bool_11, pyyaml_float_shape, plain_float_11, try_parse_float_11, try_parse_int_11,
  is_big_int_11, number_start_11, after_sign, strip_underscores, classify_number_11,
  classify_rest_11, classify_plain_11, bool_or,
}

module _ {F : Type 0} (f64 : Float64 F) where
  -- The reading of PyYAML and the reading of the specification agree, or PyYAML's is a string.
  abbrev Narrower : ScalarKind F → ScalarKind F → Type 0
  Narrower p q = (p ≡ q) ⊎ (p ≡ str)

  float-narrow :
      (clean : Text)
      → (plain_float_11 f64 true clean ≡ plain_float_11 f64 false clean)
        ⊎ (plain_float_11 f64 true clean ≡ none)
  float-narrow clean = elim (Bool-cases (pyyaml_float_shape clean)) [
    | inl h ↦ inl (rw (h) refl)
    | inr h ↦ elim (Bool-cases (any (λ b. b == b'.' || b == b'e' || b == b'E') clean)) [
      | inr a ↦ inl (rw (a) refl)
      | inl a ↦ elim (Bool-cases (contains clean b':' && contains clean b'.')) [
        | inl s ↦ inl (rw (h, a, s) refl)
        | inr s ↦ inr (rw (h, a, s) refl)
      ]
    ]
  ]

  number-narrow :
      (i : Option ℤ) (big : Bool) (p q : Option F)
      → (p ≡ q) ⊎ (p ≡ none)
      → Narrower (number_kind i big p) (number_kind i big q)
  number-narrow i big p q (inl e) = inl (ap (number_kind i big) e)
  number-narrow (some i) big p q (inr e) = inl refl
  number-narrow none true p q (inr e) = inl refl
  number-narrow none false p q (inr e) = inr (ap (number_kind none false) e)

  try_parse_float-narrow :
      (v : Text)
      → (try_parse_float_11 f64 true v ≡ try_parse_float_11 f64 false v)
        ⊎ (try_parse_float_11 f64 true v ≡ none)
  unfolding try_parse_float_11
  try_parse_float-narrow v =
      special (parse_special_float f64 v) (float-narrow (strip_underscores v))
    where
      special :
          (o : Option F) {p q : Option F}
          → (p ≡ q) ⊎ (p ≡ none)
          → (or_else o p ≡ or_else o q) ⊎ (or_else o p ≡ none)
      special none h = h
      special (some f) h = inl refl

  rest-narrow : (v : Text) → Narrower (classify_rest_11 f64 true v) (classify_rest_11 f64 false v)
  unfolding classify_rest_11 classify_number_11
  rest-narrow v = elim (Bool-cases (number_start_11 v)) [
    | inr h ↦ inl (rw (h) refl)
    | inl h ↦ elim (Bool-cases (starts_with (after_sign v) (codes "_"))) [
      | inl u ↦ inr (rw (h, u) refl)
      | inr u ↦
          rw (h, u)
            (number-narrow (try_parse_int_11 v) (is_big_int_11 v) _ _ (try_parse_float-narrow v))
    ]
  ]

  word : (v : Text) (w : String) → text_eq v (codes w) ≡ true → v ≡ codes w
  word v w h = (text_eq_iff v (codes w)).0 h

  one_of-two :
      (v : Text) (a b : String) → one_of v (a ∷ b ∷ []) ≡ true → (v ≡ codes a) ⊎ (v ≡ codes b)
  one_of-two v a b h = elim (Bool-cases (text_eq v (codes a))) [
    | inl e ↦ inl (word v a e)
    | inr e ↦ elim (Bool-cases (text_eq v (codes b))) [
      | inl e' ↦ inr (word v b e')
      | inr e' ↦ absurd (false-ne-true (rw (e, e') at h))
    ]
  ]

  -- The letters that PyYAML reads as strings
  IsLetter : Text → Type 0
  IsLetter v = ((v ≡ codes "y") ⊎ (v ≡ codes "Y")) ⊎ ((v ≡ codes "n") ⊎ (v ≡ codes "N"))

  letter-narrow : (v : Text) → IsLetter v → classify_plain_11 f64 true v ≡ str
  unfolding IsLetter classify_plain_11 try_parse_bool_11 is_null classify_rest_11
  letter-narrow v (inl (inl h)) = rw (h) refl
  letter-narrow v (inl (inr h)) = rw (h) refl
  letter-narrow v (inr (inl h)) = rw (h) refl
  letter-narrow v (inr (inr h)) = rw (h) refl

  other-narrow :
      (v : Text)
      → try_parse_bool_11 true v ≡ try_parse_bool_11 false v
      → Narrower (classify_plain_11 f64 true v) (classify_plain_11 f64 false v)
  unfolding classify_plain_11
  other-narrow v h = elim (Bool-cases (is_null v)) [
    | inl n ↦ inl (rw (n) refl)
    | inr n ↦ elim (Bool-cases (text_eq v (codes "<<"))) [
      | inl m ↦ inl (rw (n, m) refl)
      | inr m ↦ rw (n, m, h) (boolean (try_parse_bool_11 false v) (rest-narrow v))
    ]
  ]
    where
      boolean :
          (o : Option Bool) {p q : ScalarKind F}
          → Narrower p q
          → Narrower (bool_or f64 o p) (bool_or f64 o q)
      boolean (some b) k = inl refl
      boolean none k = k

  -- Wherever PyYAML's reading of a plain scalar is not that of the YAML 1.1 specification, it is a
  -- string.
  pub classify-pyyaml :
      (v : Text)
      → (classify_plain_11 f64 true v ≡ classify_plain_11 f64 false v)
        ⊎ (classify_plain_11 f64 true v ≡ str)
  unfolding IsLetter try_parse_bool_11
  classify-pyyaml v = elim (Bool-cases (one_of v ("y" ∷ "Y" ∷ []))) [
    | inl y ↦ inr (letter-narrow v (inl (one_of-two v "y" "Y" y)))
    | inr y ↦ elim (Bool-cases (one_of v ("n" ∷ "N" ∷ []))) [
      | inl n ↦ inr (letter-narrow v (inr (one_of-two v "n" "N" n)))
      | inr n ↦ other-narrow v (rw (y, n) refl)
    ]
  ]
