-- ===== src/Json/Strings.antt =====
-- What `write_string` writes is a string of the JSON grammar (RFC 8259).
use yamlrocks.Common.{
  ℕ, ◌+◌, ◌*◌, ◌-◌, ◌/◌, ◌%◌, ◌<◌, Bool, true, false, not, ◌&&◌, ◌||◌, Bool-cases, Option, none,
  some, [], ◌∷◌, ◌++◌, Text, all, append-all, ltb, leb, ◌==◌, ==_iff, if◌then◌else◌, ◌≡◌, ◌⊎◌, inl,
  inr, refl, sym, subst, ap, ◌∙◌, arith,
}
use yamlrocks.Emit.Scalar.{hex_digit, hex_4}
use yamlrocks.Json.{escape, string_body, write_string}

-- The value of a hexadecimal digit
abbrev hex_value : ℕ → Option ℕ
hex_value c =
    if leb b'0' c && leb c b'9'
    then some (c - b'0')
    else if leb b'a' c && leb c b'f'
    then some (c - b'a' + 10)
    else if leb b'A' c && leb c b'F'
    then some (c - b'A' + 10)
    else none

-- The escapes of one letter
abbrev letter_value : ℕ → Option ℕ
letter_value l =
    if l == b'"' || (l == b'\\' || l == b'/')
    then some l
    else if l == b'b'
    then some 0x08
    else if l == b'f'
    then some 0x0c
    else if l == b'n'
    then some 0x0a
    else if l == b'r'
    then some 0x0d
    else if l == b't'
    then some 0x09
    else none

-- How the grammar writes a character below the surrogates by its code.
pub data JsonChar : Text → ℕ → Type 0 where
  unescaped :
      {c : ℕ} → leb 0x20 c ≡ true → (c == b'"') ≡ false → (c == b'\\') ≡ false → JsonChar (c ∷ []) c
  letter : {l c : ℕ} → letter_value l ≡ some c → JsonChar (b'\\' ∷ l ∷ []) c
  unicode :
      {h3 h2 h1 h0 v3 v2 v1 v0 : ℕ}
      → hex_value h3 ≡ some v3
      → hex_value h2 ≡ some v2
      → hex_value h1 ≡ some v1
      → hex_value h0 ≡ some v0
      → ltb (v3 * 4096 + v2 * 256 + v1 * 16 + v0) 0xd800 ≡ true
      → JsonChar (b'\\' ∷ b'u' ∷ h3 ∷ h2 ∷ h1 ∷ h0 ∷ []) (v3 * 4096 + v2 * 256 + v1 * 16 + v0)

pub data JsonBody : Text → Text → Type 0 where
  ended : JsonBody [] []
  item :
      {chars body value : Text} {c : ℕ}
      → JsonChar chars c
      → JsonBody body value
      → JsonBody (chars ++ body) (c ∷ value)

hex_value-hex_digit : (d : ℕ) → d < 16 → hex_value (hex_digit d) ≡ some d
hex_value-hex_digit d h = ground arith

control-JsonChar : (c : ℕ) → ltb c 0x20 ≡ true → JsonChar (b'\\' ∷ b'u' ∷ hex_4 c) c
control-JsonChar c h =
    let l : c < 0x20 = ground arith in
    let e : c / 4096 * 4096 + c / 256 % 16 * 256 + c / 16 % 16 * 16 + c % 16 ≡ c = omega arith in
    subst (JsonChar (b'\\' ∷ b'u' ∷ hex_4 c)) e (
      unicode (hex_value-hex_digit (c / 4096) (omega arith))
        (hex_value-hex_digit (c / 256 % 16) (omega arith))
        (hex_value-hex_digit (c / 16 % 16) (omega arith))
        (hex_value-hex_digit (c % 16) (omega arith))
        (ap (λ n. ltb n 0xd800) e ∙ (let b : ltb c 0xd800 ≡ true = ground arith in b)))

eq-cases : (c d : ℕ) → (c ≡ d) ⊎ ((c == d) ≡ false)
eq-cases c d = elim (Bool-cases (c == d)) [ inl h ↦ inl ((==_iff c d).0 h) | inr h ↦ inr h ]

-- No control character below U+0020, and none of U+2028 and U+2029
abbrev pub is_script_safe : ℕ → Bool
is_script_safe c = leb 0x20 c && (not (c == 0x2028) && not (c == 0x2029))

hex_digit-safe : (d : ℕ) → d < 16 → is_script_safe (hex_digit d) ≡ true
hex_digit-safe d h = ground arith

-- How a character may be written
abbrev Writes : Text → ℕ → Type 0
Writes t c = JsonChar t c × (all is_script_safe t ≡ true)

abbrev Written : ℕ → Type 0
Written c = Writes (escape c) c

control-Writes : (c : ℕ) → ltb c 0x20 ≡ true → Writes (b'\\' ∷ b'u' ∷ hex_4 c) c
control-Writes c h =
    let l : c < 0x20 = ground arith in
    (
      control-JsonChar c h,
      rw
          (
            hex_digit-safe (c / 4096) (omega arith),
            hex_digit-safe (c / 256 % 16) (omega arith),
            hex_digit-safe (c / 16 % 16) (omega arith),
            hex_digit-safe (c % 16) (omega arith),
          )
          refl,
    )

-- A character that no escape of one letter is written for.
code-Written :
    (c : ℕ)
    → (c == b'"') ≡ false
    → (c == b'\\') ≡ false
    → escape c ≡ (
        if ltb c 0x20
        then b'\\' ∷ b'u' ∷ hex_4 c
        else if c == 0x2028
        then escape 0x2028
        else if c == 0x2029
        then escape 0x2029
        else c ∷ [])
    → Written c
unfolding escape
code-Written c q b e = elim (Bool-cases (ltb c 0x20)) [
  | inl h ↦ subst (λ t. Writes t c) (sym (e ∙ rw (h) refl)) (control-Writes c h)
  | inr h1 ↦ elim (eq-cases c 0x2028) [
    | inl h ↦ subst Written (sym h) (unicode refl refl refl refl refl, refl)
    | inr h2 ↦ elim (eq-cases c 0x2029) [
      | inl h ↦ subst Written (sym h) (unicode refl refl refl refl refl, refl)
      | inr h3 ↦
          let u : leb 0x20 c ≡ true = ground arith in
          subst (λ t. Writes t c) (sym (e ∙ rw (h1, h2, h3) refl))
            (unescaped u q b, rw (u, h2, h3) refl)
    ]
  ]
]

letter-Written :
    (c : ℕ)
    → (c == b'"') ≡ false
    → (c == b'\\') ≡ false
    → (c == b'\n') ≡ false
    → (c == b'\r') ≡ false
    → Written c
unfolding escape
letter-Written c h1 h2 h3 h4 = elim (eq-cases c b'\t') [
  | inl h ↦ subst Written (sym h) (letter refl, refl)
  | inr h5 ↦ elim (eq-cases c 0x08) [
    | inl h ↦ subst Written (sym h) (letter refl, refl)
    | inr h6 ↦ elim (eq-cases c 0x0c) [
      | inl h ↦ subst Written (sym h) (letter refl, refl)
      | inr h7 ↦ code-Written c h1 h2 (rw (h1, h2, h3, h4, h5, h6, h7) refl)
    ]
  ]
]

escape-Written : (c : ℕ) → Written c
unfolding escape
escape-Written c = elim (eq-cases c b'"') [
  | inl h ↦ subst Written (sym h) (letter refl, refl)
  | inr h1 ↦ elim (eq-cases c b'\\') [
    | inl h ↦ subst Written (sym h) (letter refl, refl)
    | inr h2 ↦ elim (eq-cases c b'\n') [
      | inl h ↦ subst Written (sym h) (letter refl, refl)
      | inr h3 ↦ elim (eq-cases c b'\r') [
        | inl h ↦ subst Written (sym h) (letter refl, refl)
        | inr h4 ↦ letter-Written c h1 h2 h3 h4
      ]
    ]
  ]
]

string_body-JsonBody : (value : Text) → JsonBody (string_body value) value
unfolding string_body
string_body-JsonBody [] = ended
string_body-JsonBody (c ∷ cs) = item (escape-Written c).0 (string_body-JsonBody cs)

-- Behind the buffer, write_string writes a string of the JSON grammar for the value: a quote, a body
-- in which every character is written as the grammar allows, and a quote.
pub write_string-JsonBody :
    (out value : Text)
    → (body : Text) × (write_string out value ≡ out ++ (b'"' ∷ (body ++ b'"' ∷ [])))
      × JsonBody body value
unfolding write_string
write_string-JsonBody out value = (string_body value, refl, string_body-JsonBody value)

string_body-safe : (value : Text) → all is_script_safe (string_body value) ≡ true
unfolding string_body
string_body-safe [] = refl
string_body-safe (c ∷ cs) =
    append-all is_script_safe (escape c) (string_body cs) (escape-Written c).1 (string_body-safe cs)

-- What write_string puts behind a buffer has no character below U+0020, and neither of the separators
-- U+2028 and U+2029 that end a line of JavaScript.
pub write_string-safe :
    (out value : Text)
    → (tail : Text) × (write_string out value ≡ out ++ tail) × (all is_script_safe tail ≡ true)
unfolding write_string
write_string-safe out value = (
  b'"' ∷ (string_body value ++ b'"' ∷ []),
  refl,
  append-all is_script_safe (string_body value) (b'"' ∷ []) (string_body-safe value) refl,
)
