-- ===== src/Scanner/Printable/Bytes.antt =====
-- `check_printable` (src/scanner/reader.rs) on the bytes of one character.
use yamlrocks.Common.{
  ℕ, ◌+◌, ◌/◌, ◌%◌, ◌≤◌, ◌<◌, Bool, true, false, Bool-cases, Option, some, ◌∷◌, ◌++◌, Text, length,
  ltb, if◌then◌else◌, ◌≡◌, inl, inr, refl, ap, ◌∙◌, arith,
}
use yamlrocks.Scanner.Printable.{encode, is_bad, check_printable}
use yamlrocks.Emit.Scalar.{is_non_printable}

-- A byte that no character starts with falls through.
tail_byte :
    (b i : ℕ) (rest : Text)
    → 0x80 ≤ b
    → b < 0xc0
    → check_printable i (b ∷ rest) ≡ check_printable (i + 1) rest
unfolding check_printable is_bad
tail_byte b i rest l h = ground arith

one_byte :
    (c i : ℕ) (rest : Text)
    → ltb c 0x80 ≡ true
    → check_printable i (c ∷ rest)
      ≡ (if is_non_printable c then some i else check_printable (i + 1) rest)
unfolding check_printable is_bad is_non_printable
one_byte c i rest h = ground arith

lead-two :
    (c : ℕ) (rest : Text)
    → ltb c 0x80 ≡ false
    → ltb c 0x800 ≡ true
    → is_bad (0xc0 + c / 64) ((0x80 + c % 64) ∷ rest) ≡ is_non_printable c
unfolding is_bad is_non_printable
lead-two c rest h k = ground arith

lead-three :
    (c : ℕ) (rest : Text)
    → ltb c 0x800 ≡ false
    → ltb c 0x10000 ≡ true
    → is_bad (0xe0 + c / 4096) ((0x80 + c / 64 % 64) ∷ (0x80 + c % 64) ∷ rest) ≡ is_non_printable c
unfolding is_bad is_non_printable
lead-three c rest h k = ground arith

lead-four :
    (c : ℕ) (rest : Text)
    → ltb c 0x10000 ≡ false
    → is_bad (0xf0 + c / 262144) rest ≡ is_non_printable c
unfolding is_bad is_non_printable
lead-four c rest h = ground arith

check_step :
    (b i : ℕ) (rest : Text) (bad : Bool)
    → is_bad b rest ≡ bad
    → check_printable i (b ∷ rest) ≡ (if bad then some i else check_printable (i + 1) rest)
unfolding check_printable
check_step b i rest bad h = rw (h) refl

abbrev pub at_char : ℕ → ℕ → Text → ℕ → Option ℕ
at_char c i rest width = if is_non_printable c then some i else check_printable (i + width) rest

pub if-else :
    (b : Bool) (i : ℕ) {later result : Option ℕ}
    → later ≡ result
    → (if b then some i else later) ≡ (if b then some i else result)
if-else b i h = ap (λ r. if b then some i else r) h

two_tails :
    (a b i : ℕ) (rest : Text)
    → (0x80 ≤ a) × (a < 0xc0)
    → (0x80 ≤ b) × (b < 0xc0)
    → check_printable i (a ∷ b ∷ rest) ≡ check_printable (i + 2) rest
two_tails a b i rest (l, h) (l', h') =
    tail_byte a i (b ∷ rest) l h
    ∙ tail_byte b (i + 1) rest l' h'
    ∙ ap (λ k. check_printable k rest) (omega arith)

pub check-encode :
    (c i : ℕ) (rest : Text)
    → check_printable i (encode c ++ rest) ≡ at_char c i rest (length (encode c))
unfolding encode
check-encode c i rest = elim (Bool-cases (ltb c 0x80)) [
  | inl h ↦ rw (h) (one_byte c i rest h)
  | inr h ↦ elim (Bool-cases (ltb c 0x800)) [
    | inl k ↦
        rw (h, k)
          (check_step (0xc0 + c / 64) i ((0x80 + c % 64) ∷ rest) (is_non_printable c)
              (lead-two c rest h k)
            ∙ if-else (is_non_printable c) i (
                tail_byte (0x80 + c % 64) (i + 1) rest (omega arith) (omega arith)
                ∙ ap (λ k. check_printable k rest) (omega arith)))
    | inr k ↦ elim (Bool-cases (ltb c 0x10000)) [
      | inl m ↦
          rw (h, k, m)
            (check_step (0xe0 + c / 4096) i ((0x80 + c / 64 % 64) ∷ (0x80 + c % 64) ∷ rest)
                (is_non_printable c) (lead-three c rest k m)
              ∙ if-else (is_non_printable c) i (
                  two_tails (0x80 + c / 64 % 64) (0x80 + c % 64) (i + 1) rest
                    (omega arith, omega arith) (omega arith, omega arith)
                  ∙ ap (λ k. check_printable k rest) (omega arith)))
      | inr m ↦
          rw (h, k, m)
            (check_step (0xf0 + c / 262144) i
                ((0x80 + c / 4096 % 64) ∷ (0x80 + c / 64 % 64) ∷ (0x80 + c % 64) ∷ rest)
                (is_non_printable c) (lead-four c _ m)
              ∙ if-else (is_non_printable c) i (
                  tail_byte (0x80 + c / 4096 % 64) (i + 1) _ (omega arith) (omega arith)
                  ∙ two_tails (0x80 + c / 64 % 64) (0x80 + c % 64) (i + 1 + 1) rest
                      (omega arith, omega arith) (omega arith, omega arith)
                  ∙ ap (λ k. check_printable k rest) (omega arith)))
    ]
  ]
]
