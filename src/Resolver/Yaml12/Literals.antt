-- ===== src/Resolver/Yaml12/Literals.antt =====
-- Integer literals of the core schema with their signs, stated without the parser, and how
-- `split_sign` (src/resolver/mod.rs) takes them apart.
use yamlrocks.Common.{
  ℕ, Bool, true, false, ◌≡◌, ◌≢◌, refl, sym, inl, inr, some, [], ◌∷◌, Text, starts_with, arith,
  ◌==◌, Bool-cases, ==_iff, none-ne-some, subst,
}
use yamlrocks.Common.Digits.{numeral-unsigned, test_head}
use yamlrocks.Common.Int.{ℤ, signed}
use yamlrocks.Resolver.Atoms.{split_sign, nonempty_rest}
use yamlrocks.Resolver.Yaml12.Grammar.{Magnitude, zero_digit, decimal, hex, octal}

-- `v` is `s` behind an optional sign.
pub data SignedText (v : Text) (negative : Bool) (s : Text) : Type 0 where
  bare : v ≡ s → negative ≡ false → SignedText v negative s
  plus : v ≡ b'+' ∷ s → negative ≡ false → SignedText v negative s
  minus_sign : v ≡ b'-' ∷ s → negative ≡ true → SignedText v negative s

-- `v` is an integer literal of value `z`.
pub record Literal (v : Text) (z : ℤ) : Type 0 where
  pub negative : Bool
  pub body : Text
  pub magnitude : ℕ
  pub sign : SignedText v negative body
  pub body_is : Magnitude body magnitude
  pub value : z ≡ signed negative magnitude

-- A magnitude has a first byte, which is no sign.
pub record Unsigned (s : Text) : Type 0 where
  nonempty : s ≢ []
  no_plus : starts_with s (b'+' ∷ []) ≡ false
  no_minus : starts_with s (b'-' ∷ []) ≡ false

Unsigned-cons : (c : ℕ) (cs : Text) → (c == b'+') ≡ false → (c == b'-') ≡ false → Unsigned (c ∷ cs)
Unsigned-cons c cs p m = record {
  nonempty = λ q. cc q;
  no_plus = ground arith;
  no_minus = ground arith;
}

pub Magnitude-Unsigned : {s : Text} {n : ℕ} → Magnitude s n → Unsigned s
Magnitude-Unsigned (zero_digit e z) = subst Unsigned (sym e) (Unsigned-cons b'0' [] refl refl)
Magnitude-Unsigned {s} {n} (decimal (ne, q) z) =
    let (p, m) = numeral-unsigned 10 s n q in record { nonempty = ne; no_plus = p; no_minus = m }
Magnitude-Unsigned (hex ds (inl e) i) = subst Unsigned (sym e) (Unsigned-cons b'0' _ refl refl)
Magnitude-Unsigned (hex ds (inr e) i) = subst Unsigned (sym e) (Unsigned-cons b'0' _ refl refl)
Magnitude-Unsigned (octal ds (inl e) i) = subst Unsigned (sym e) (Unsigned-cons b'0' _ refl refl)
Magnitude-Unsigned (octal ds (inr e) i) = subst Unsigned (sym e) (Unsigned-cons b'0' _ refl refl)

pub split_sign-Unsigned : (s : Text) → Unsigned s → split_sign s ≡ some (false, s)
unfolding split_sign
split_sign-Unsigned [] u = absurd (u.nonempty refl)
split_sign-Unsigned (c ∷ cs) u = rw (test_head b'-' c cs u.no_minus, test_head b'+' c cs u.no_plus)

nonempty_rest-cons : (b : Bool) (s : Text) → s ≢ [] → nonempty_rest b s ≡ some (b, s)
nonempty_rest-cons b [] ne = absurd (ne refl)
nonempty_rest-cons b (c ∷ cs) ne = refl

pub split_sign-SignedText :
    {v s : Text} {negative : Bool}
    → Unsigned s
    → SignedText v negative s
    → split_sign v ≡ some (negative, s)
unfolding split_sign
split_sign-SignedText {v} {s} u (bare e b) = rw (e, b) (split_sign-Unsigned s u)
split_sign-SignedText {v} {s} u (plus e b) = rw (e, b) (nonempty_rest-cons false s u.nonempty)
split_sign-SignedText {v} {s} u (minus_sign e b) = rw (e, b) (nonempty_rest-cons true s u.nonempty)

nonempty_rest-eq-some :
    {b negative : Bool} (t s : Text)
    → nonempty_rest b t ≡ some (negative, s)
    → (negative ≡ b) × (t ≡ s) × (s ≢ [])
nonempty_rest-eq-some [] s h = absurd (none-ne-some h)
nonempty_rest-eq-some (c ∷ cs) s h = (cc, cc, λ e. cc)

pub SignedText-split_sign :
    (v : Text) {s : Text} {negative : Bool}
    → split_sign v ≡ some (negative, s)
    → SignedText v negative s × (s ≢ [])
unfolding split_sign
SignedText-split_sign [] e = absurd (none-ne-some e)
SignedText-split_sign (c ∷ cs) {s} e = elim (Bool-cases (c == b'-')) [
  | inl m ↦
      let (b, t, ne) = nonempty_rest-eq-some cs s (rw m at e) in
      (minus_sign (cc ((==_iff c b'-').0 m)) b, ne)
  | inr m ↦ elim (Bool-cases (c == b'+')) [
    | inl p ↦
        let (b, t, ne) = nonempty_rest-eq-some cs s (rw (m, p) at e) in
        (plus (cc ((==_iff c b'+').0 p)) b, ne)
    | inr p ↦ let (b, t, ne) = nonempty_rest-eq-some (c ∷ cs) s (rw (m, p) at e) in (bare t b, ne)
  ]
]
