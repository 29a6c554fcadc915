-- ===== src/Resolver/Yaml12/Grammar.antt =====
-- A grammar of unsigned integer literals of the core schema, stated without the parser: `0`, a
-- decimal numeral with no leading zero, or a hexadecimal or octal numeral behind its prefix.
use yamlrocks.Common.{
  ℕ, false, ◌≡◌, refl, sym, ap, ◌⊎◌, inl, inr, [], ◌∷◌, Text, starts_with, arith, ◌==◌, Bool-cases,
  ==_iff, subst,
}
use yamlrocks.Common.Digits.{IsNumeral}

-- `s` is an unsigned integer literal of value `n`.
pub data Magnitude (s : Text) (n : ℕ) : Type 0 where
  zero_digit : s ≡ b'0' ∷ [] → n ≡ 0 → Magnitude s n
  decimal : IsNumeral 10 s n → starts_with s (b'0' ∷ []) ≡ false → Magnitude s n
  hex :
      (ds : Text)
      → (s ≡ b'0' ∷ b'x' ∷ ds) ⊎ (s ≡ b'0' ∷ b'X' ∷ ds)
      → IsNumeral 16 ds n
      → Magnitude s n
  octal :
      (ds : Text)
      → (s ≡ b'0' ∷ b'o' ∷ ds) ⊎ (s ≡ b'0' ∷ b'O' ∷ ds)
      → IsNumeral 8 ds n
      → Magnitude s n

-- The ways in which a body behind the sign can begin.
pub data Shape (s : Text) : Type 0 where
  hex_body : (ds : Text) → (s ≡ b'0' ∷ b'x' ∷ ds) ⊎ (s ≡ b'0' ∷ b'X' ∷ ds) → Shape s
  octal_body : (ds : Text) → (s ≡ b'0' ∷ b'o' ∷ ds) ⊎ (s ≡ b'0' ∷ b'O' ∷ ds) → Shape s
  lone_zero : s ≡ b'0' ∷ [] → Shape s
  leading_zero :
      (c : ℕ) (cs : Text)
      → s ≡ b'0' ∷ c ∷ cs
      → (c == b'x') ≡ false
      → (c == b'X') ≡ false
      → (c == b'o') ≡ false
      → (c == b'O') ≡ false
      → Shape s
  no_zero : starts_with s (b'0' ∷ []) ≡ false → Shape s

second_letter : (c : ℕ) (cs : Text) → Shape (b'0' ∷ c ∷ cs)
second_letter c cs = elim (Bool-cases (c == b'x')) [
  | inl e ↦ hex_body cs (inl (ap (λ k. b'0' ∷ k ∷ cs) ((==_iff c b'x').0 e)))
  | inr x ↦ elim (Bool-cases (c == b'X')) [
    | inl e ↦ hex_body cs (inr (ap (λ k. b'0' ∷ k ∷ cs) ((==_iff c b'X').0 e)))
    | inr x' ↦ elim (Bool-cases (c == b'o')) [
      | inl e ↦ octal_body cs (inl (ap (λ k. b'0' ∷ k ∷ cs) ((==_iff c b'o').0 e)))
      | inr o ↦ elim (Bool-cases (c == b'O')) [
        | inl e ↦ octal_body cs (inr (ap (λ k. b'0' ∷ k ∷ cs) ((==_iff c b'O').0 e)))
        | inr o' ↦ leading_zero c cs refl x x' o o'
      ]
    ]
  ]
]

Shape-behind : (c : ℕ) (cs : Text) → c ≡ b'0' → Shape (c ∷ cs)
Shape-behind c [] e = lone_zero (ap (λ k. k ∷ []) e)
Shape-behind c (c' ∷ cs) e = subst (λ k. Shape (k ∷ c' ∷ cs)) (sym e) (second_letter c' cs)

pub Shape-of : (s : Text) → Shape s
Shape-of [] = no_zero refl
Shape-of (c ∷ cs) = elim (Bool-cases (c == b'0')) [
  | inl e ↦ Shape-behind c cs ((==_iff c b'0').0 e)
  | inr e ↦ no_zero (ground arith)
]
