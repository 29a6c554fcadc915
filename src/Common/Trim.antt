-- ===== src/Common/Trim.antt =====
-- White space in front of a text.
use yamlrocks.Common.{
  ℕ, true, false, Bool-cases, none, [], ◌∷◌, ◌++◌, Text, all, all-cons, starts_with, strip_prefix,
  ◌==◌, ◌≡◌, refl, sym, false-ne-true, inl, inr,
}
use yamlrocks.Common.Whitespace.{is_whitespace, trim_start}

abbrev pub IsBlank : Text → Type 0
IsBlank ws = all is_whitespace ws ≡ true

pub trim_start-append : (ws s : Text) → IsBlank ws → trim_start (ws ++ s) ≡ trim_start s
trim_start-append [] s h = refl
trim_start-append (c ∷ cs) s h =
    let (first, others) = all-cons is_whitespace c cs h in
    rw (first) (trim_start-append cs s others)

pub trim_start-blank : (ws : Text) → IsBlank ws → trim_start ws ≡ []
trim_start-blank [] h = refl
trim_start-blank (c ∷ cs) h =
    let (first, others) = all-cons is_whitespace c cs h in rw (first) (trim_start-blank cs others)

pub trim_start-cons : (c : ℕ) (cs : Text) → is_whitespace c ≡ false → trim_start (c ∷ cs) ≡ c ∷ cs
trim_start-cons c cs h = rw (h) refl

pub strip_prefix-none : (s p : Text) → starts_with s p ≡ false → strip_prefix s p ≡ none
strip_prefix-none s [] h = absurd (false-ne-true (sym h))
strip_prefix-none [] (p ∷ ps) h = refl
strip_prefix-none (x ∷ xs) (p ∷ ps) h = elim (Bool-cases (x == p)) [
  | inl e ↦ rw (e) (strip_prefix-none xs ps (rw (e) at h))
  | inr e ↦ rw (e) refl
]
