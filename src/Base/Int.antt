-- ===== src/Base/Int.antt =====
-- C integers: `int` values as signed numbers, and the conversions between widths.
use Prim.Native.Nat.{ℕ, ◌-◌, ◌%◌, ◌<◌}
use mathlib.Core.Path.{◌≡◌}
use mathlib.Core.Logic.{◌↔◌}
use mathlib.Core.Bool.{Bool, true, false}
use native.Mathlib.Omega.{arith}
use distributed_file_system.Base.Tests.{◌==◌, ltb, if◌then◌else◌}

-- `negsuc n` is -(n + 1).
pub data ℤ : Type 0 where
  pos : ℕ → ℤ
  negsuc : ℕ → ℤ

-- `a == b`
unfoldable pub int_eq : ℤ → ℤ → Bool
int_eq (pos a) (pos b) = a == b
int_eq (pos a) (negsuc b) = false
int_eq (negsuc a) (pos b) = false
int_eq (negsuc a) (negsuc b) = a == b

pub int_eq_iff : (a b : ℤ) → (int_eq a b ≡ true) ↔ (a ≡ b)
unfolding int_eq
int_eq_iff (pos a) (pos b) = (λ h. ground arith, λ h. ground arith)
int_eq_iff (pos a) (negsuc b) = (λ h. cc, λ h. cc)
int_eq_iff (negsuc a) (pos b) = (λ h. cc, λ h. cc)
int_eq_iff (negsuc a) (negsuc b) = (λ h. ground arith, λ h. ground arith)

-- `a < b`
unfoldable pub int_ltb : ℤ → ℤ → Bool
int_ltb (pos a) (pos b) = ltb a b
int_ltb (pos a) (negsuc b) = false
int_ltb (negsuc a) (pos b) = true
int_ltb (negsuc a) (negsuc b) = ltb b a

abbrev pub two31 : ℕ
two31 = 2147483648

abbrev pub two32 : ℕ
two32 = 4294967296

-- The range of `int`.
abbrev pub IsInt32 : ℤ → Type 0
IsInt32 (pos n) = n < two31
IsInt32 (negsuc n) = n < two31

-- The int whose two's complement pattern is `m`, for `m` below 2 ^ 32.
abbrev of_pattern : ℕ → ℤ
of_pattern m = if ltb m two31 then pos m else negsuc (two32 - m - 1)

-- The conversion of a `long` to `int`, which keeps the low 32 bits.
unfoldable pub to_int : ℤ → ℤ
to_int (pos n) = of_pattern (n % two32)
to_int (negsuc n) = of_pattern (two32 - 1 - n % two32)

pub to_int-IsInt32 : (z : ℤ) → IsInt32 (to_int z)
unfolding to_int
to_int-IsInt32 (pos n) = ground arith
to_int-IsInt32 (negsuc n) = ground arith

pub to_int_small : (z : ℤ) → IsInt32 z → to_int z ≡ z
unfolding to_int
to_int_small (pos n) h = ground arith
to_int_small (negsuc n) h = ground arith
