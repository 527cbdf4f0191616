-- ===== src/Prelude/Int.antt =====
-- Signed integers over the native numbers, and the C conversions of one to 32 bits.
use testcluster.Prelude.Tests.{ltb, leb, if◌then◌else◌}
use Prim.Native.Nat.{ℕ, ◌-◌, ◌%◌, ◌^◌, ◌<◌}
use mathlib.Core.Path.{◌≡◌}
use mathlib.Core.Bool.{Bool, ◌&&◌}
use native.Mathlib.Omega.{arith}

-- `negsuc n` is -(n + 1).
pub data ℤ : Type 0 where
  pos : ℕ → ℤ
  negsuc : ℕ → ℤ

-- (uint32_t)z, and an `int` too: an `int` is kept as its 32-bit pattern.
unfoldable pub to_u32 : ℤ → ℕ
to_u32 (pos n) = n % 2 ^ 32
to_u32 (negsuc n) = 2 ^ 32 - 1 - n % 2 ^ 32

-- The integer that a 32-bit pattern stands for as an `int`.
unfoldable pub of_i32 : ℕ → ℤ
of_i32 w = if ltb w (2 ^ 31) then pos w else negsuc (2 ^ 32 - 1 - w)

-- `x <= 0` is false of an `int x`.
unfoldable pub is_positive_i32 : ℕ → Bool
is_positive_i32 w = leb 1 w && ltb w (2 ^ 31)

pub to_u32-lt : (z : ℤ) → to_u32 z < 2 ^ 32
unfolding to_u32
to_u32-lt (pos n) = omega arith
to_u32-lt (negsuc n) = omega arith

pub to_u32-of_i32 : (w : ℕ) → w < 2 ^ 32 → to_u32 (of_i32 w) ≡ w
unfolding to_u32 of_i32
to_u32-of_i32 w h = ground arith

-- (size_t)z
unfoldable pub to_u64 : ℤ → ℕ
to_u64 (pos n) = n % 2 ^ 64
to_u64 (negsuc n) = 2 ^ 64 - 1 - n % 2 ^ 64

-- A size below 2^31 passes through `int` unchanged.
pub small_int : (n : ℕ) → n < 2 ^ 31 → of_i32 (to_u32 (pos n)) ≡ pos n
unfolding of_i32 to_u32
small_int n lt = ground arith
