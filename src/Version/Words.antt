-- ===== src/Version/Words.antt =====
-- The words of a line, and the parts of a version (src/version.rs).
use yamlrocks.Common.{
  ℕ, ◌^◌, ◌-◌, ◌≤◌, true, false, not, none, some, List, [], ◌∷◌, ◌++◌, Text, codes, contains, all,
  all-cons, append-all, starts_with, or_parts, not-true, ◌==◌, ◌≡◌, refl, arith,
}
use yamlrocks.Common.Whitespace.{is_whitespace}
use yamlrocks.Common.Trim.{IsBlank}
use yamlrocks.Common.Digits.{IsNumeral, is_digit, place_value-all}
use yamlrocks.Common.Digits.Unsigned.{to_digit-digit, from_str_unsigned-IsNumeral}
use yamlrocks.Version.{pieces, nonempty, parse_component, split_dot, parse_version}

-- A text without white space
abbrev pub IsWord : Text → Type 0
IsWord s = all (λ c. not (is_whitespace c)) s ≡ true

-- The text ends a word: it is empty, or starts with white space.
abbrev pub EndsWord : Text → Type 0
EndsWord [] = Unit
EndsWord (c ∷ cs) = is_whitespace c ≡ true

abbrev pub later : Text → List Text
later [] = []
later (c ∷ cs) = pieces cs

pub pieces-append :
    (word rest : Text) → IsWord word → EndsWord rest → pieces (word ++ rest) ≡ word ∷ later rest
pieces-append [] [] w e = refl
pieces-append [] (c ∷ cs) w e = rw (e) refl
pieces-append (c ∷ cs) rest w e =
    let (first, others) = all-cons (λ c. not (is_whitespace c)) c cs w in
    rw (not-true (is_whitespace c) first, pieces-append cs rest others e) refl

pub nonempty-blank :
    (gap s : Text) → IsBlank gap → nonempty (pieces (gap ++ s)) ≡ nonempty (pieces s)
nonempty-blank [] s h = refl
nonempty-blank (c ∷ cs) s h =
    let (first, others) = all-cons is_whitespace c cs h in rw (first) (nonempty-blank cs s others)

-- A numeral is digits.
numeral-digits : (s : Text) {n : ℕ} → IsNumeral 10 s n → all is_digit s ≡ true
numeral-digits s i = place_value-all 10 is_digit s to_digit-digit i.1

digit-plain :
    (c : ℕ)
    → is_digit c ≡ true
    → (not (is_whitespace c) ≡ true) × ((c == b'.') ≡ false) × ((c == b'#') ≡ false)
unfolding is_whitespace
digit-plain c h = ground arith

digits-IsWord : (s : Text) → all is_digit s ≡ true → IsWord s
digits-IsWord [] h = refl
digits-IsWord (c ∷ cs) h =
    let (first, others) = all-cons is_digit c cs h in
    rw ((digit-plain c first).0, digits-IsWord cs others) refl

pub version-IsWord :
    (major minor : Text) {a b : ℕ}
    → IsNumeral 10 major a
    → IsNumeral 10 minor b
    → IsWord (major ++ b'.' ∷ minor)
unfolding is_whitespace
version-IsWord major minor i j =
    append-all (λ c. not (is_whitespace c)) major (b'.' ∷ minor)
      (digits-IsWord major (numeral-digits major i)) (digits-IsWord minor (numeral-digits minor j))

pub numeral-no_hash :
    (s rest : Text) {n : ℕ} → IsNumeral 10 s n → starts_with (s ++ rest) (codes "#") ≡ false
numeral-no_hash [] rest i = absurd (i.0 refl)
numeral-no_hash (c ∷ cs) rest i =
    let (first, others) = all-cons is_digit c cs (numeral-digits (c ∷ cs) i) in
    rw ((digit-plain c first).2) refl

split_dot-append :
    (major minor : Text)
    → all is_digit major ≡ true
    → split_dot (major ++ b'.' ∷ minor) ≡ some (major, minor)
split_dot-append [] minor h = refl
split_dot-append (c ∷ cs) minor h =
    let (first, others) = all-cons is_digit c cs h in
    rw ((digit-plain c first).1, split_dot-append cs minor others) refl

split_dot-none : (s : Text) → contains s b'.' ≡ false → split_dot s ≡ none
split_dot-none [] h = refl
split_dot-none (c ∷ cs) h =
    let (first, others) = or_parts (c == b'.') (contains cs b'.') h in
    rw (first, split_dot-none cs others) refl

parse_component-IsNumeral :
    (s : Text) {n : ℕ} → IsNumeral 10 s n → n ≤ 2 ^ 32 - 1 → parse_component s ≡ some n
unfolding parse_component
parse_component-IsNumeral [] i l = absurd (i.0 refl)
parse_component-IsNumeral (c ∷ cs) i l =
    rw (numeral-digits (c ∷ cs) i) (from_str_unsigned-IsNumeral (2 ^ 32 - 1) (c ∷ cs) i l)

pub parse_version-append :
    (major minor : Text) {a b : ℕ}
    → IsNumeral 10 major a
    → IsNumeral 10 minor b
    → a ≤ 2 ^ 32 - 1
    → b ≤ 2 ^ 32 - 1
    → parse_version (major ++ b'.' ∷ minor) ≡ some (a, b)
unfolding parse_version
parse_version-append major minor i j l k =
    rw
      (
        split_dot-append major minor (numeral-digits major i),
        parse_component-IsNumeral major i l,
        parse_component-IsNumeral minor j k,
      )
      refl

pub parse_version-none : (s : Text) → contains s b'.' ≡ false → parse_version s ≡ none
unfolding parse_version
parse_version-none s h = rw (split_dot-none s h) refl
