-- ===== src/Common/Int.antt =====
-- Integers over the native numbers, and the 64-bit range.
use Prim.Native.Nat.{ℕ, zero, suc, ◌-◌, ◌^◌}
use yamlrocks.Common.Tests.{ltb}
use mathlib.Core.Bool.{Bool, true, false}
use mathlib.Core.Path.{◌≡◌, refl}
use native.Mathlib.Omega.{arith}

-- `negsuc n` is -(n + 1).
pub data ℤ : Type 0 where
  pos : ℕ → ℤ
  negsuc : ℕ → ℤ

-- `-n` for a magnitude `n`
abbrev pub minus : ℕ → ℤ
minus zero = pos 0
minus (suc n) = negsuc n

-- `-result` on a signed integer
abbrev pub neg_ℤ : ℤ → ℤ
neg_ℤ (pos n) = minus n
neg_ℤ (negsuc n) = pos (suc n)

-- the magnitude of an integer
abbrev pub nat_abs : ℤ → ℕ
nat_abs (pos n) = n
nat_abs (negsuc n) = suc n

-- `if negative { -result } else { result }`
abbrev pub signed : Bool → ℕ → ℤ
signed true n = minus n
signed false n = pos n

-- `i64::MAX`
abbrev pub i64_max : ℕ
i64_max = 2 ^ 63 - 1

pub nat_abs-signed : (b : Bool) (n : ℕ) → nat_abs (signed b n) ≡ n
nat_abs-signed true zero = refl
nat_abs-signed true (suc n) = refl
nat_abs-signed false n = refl

-- `a < b`
abbrev pub less : ℤ → ℤ → Bool
less (pos m) (pos n) = ltb m n
less (pos m) (negsuc n) = false
less (negsuc m) (pos n) = true
less (negsuc m) (negsuc n) = ltb n m

-- What is above an integer above -1 is above -1.
pub less-above : (a b : ℤ) → less (negsuc 0) a ≡ true → less a b ≡ true → less (negsuc 0) b ≡ true
less-above (pos m) (pos n) h l = refl
less-above (pos m) (negsuc n) h l = cc
less-above (negsuc m) (pos n) h l = refl
less-above (negsuc m) (negsuc n) h l = ground arith
