-- ===== src/Common/Chars.antt =====
-- A `&str` is the list of its code points. The tests of the modelled code are on ASCII bytes, and a
-- byte of a longer encoding is at least 0x80, so that a code point at least 0x80 answers each of
-- them as its bytes do.
use Prim.Native.Char.{code}
use Prim.Native.Nat.{ℕ}
use Prim.Native.String.{String}
use mathlib.Core.Bool.{Bool, true, false, ◌&&◌, ◌||◌}
use mathlib.Core.List.{List, [], ◌∷◌}
use mathlib.Core.Logic.{◌↔◌}
use mathlib.Core.Option.{Option, none, some}
use mathlib.Core.Path.{◌≡◌, refl}
use native.Mathlib.Omega.{arith}
use yamlrocks.Common.Tests.{◌==◌, if◌then◌else◌}

abbrev pub Text : Type 0
Text = List ℕ

abbrev pub codes : String → Text
codes String.[] = []
codes (String.◌∷◌ c s) = code c ∷ codes s

-- `a == b` on texts
abbrev pub text_eq : Text → Text → Bool
text_eq [] [] = true
text_eq [] (y ∷ ys) = false
text_eq (x ∷ xs) [] = false
text_eq (x ∷ xs) (y ∷ ys) = (x == y) && text_eq xs ys

-- `matches!(value, "a" | "b" | …)`
abbrev pub one_of : Text → List String → Bool
one_of s [] = false
one_of s (w ∷ ws) = text_eq s (codes w) || one_of s ws

-- `value.contains(c)`
abbrev pub contains : Text → ℕ → Bool
contains [] c = false
contains (x ∷ xs) c = (x == c) || contains xs c

abbrev pub strip_prefix : Text → Text → Option Text
strip_prefix s [] = some s
strip_prefix [] (p ∷ ps) = none
strip_prefix (x ∷ xs) (p ∷ ps) = if x == p then strip_prefix xs ps else none

abbrev pub starts_with : Text → Text → Bool
starts_with s [] = true
starts_with [] (p ∷ ps) = false
starts_with (x ∷ xs) (p ∷ ps) = (x == p) && starts_with xs ps

-- `value.chars().filter(|&c| c != k).collect()`
abbrev pub without : ℕ → Text → Text
without k [] = []
without k (x ∷ xs) = if x == k then without k xs else x ∷ without k xs

cons_head : ℕ → List Text → List Text
cons_head c [] = (c ∷ []) ∷ []
cons_head c (p ∷ ps) = (c ∷ p) ∷ ps

-- `value.split(k)`: never the empty list
unfoldable pub split : ℕ → Text → List Text
unfolding cons_head
split k [] = [] ∷ []
split k (x ∷ xs) = if x == k then [] ∷ split k xs else cons_head x (split k xs)

pub text_eq_iff : (a b : Text) → (text_eq a b ≡ true) ↔ (a ≡ b)
text_eq_iff [] [] = (λ _. refl, λ _. refl)
text_eq_iff [] (y ∷ ys) = (λ h. cc, λ h. cc)
text_eq_iff (x ∷ xs) [] = (λ h. cc, λ h. cc)
text_eq_iff (x ∷ xs) (y ∷ ys) =
    (λ h. ground (arith, text_eq_iff xs ys), λ h. ground (arith, text_eq_iff xs ys))
