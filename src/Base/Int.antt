-- ===== src/Base/Int.antt =====
-- Signed integers, under the library's names: `negsuc n` is -(n + 1).
use Prim.Native.Nat.{ℕ, ◌-◌, ◌%◌, ◌^◌, ◌<◌}
use mathlib.Core.Path.{◌≡◌}
use native.Mathlib.Omega.{arith}
use cl_async.Base.Tests.{ltb, if◌then◌else◌}

pub data ℤ : Type 0 where
  pos : ℕ → ℤ
  negsuc : ℕ → ℤ

-- `as i32` of a `u32`, and `as u32` of an `i32`.
pub as_i32 : ℕ → ℤ
as_i32 n = if ltb n (2 ^ 31) then pos n else negsuc (2 ^ 32 - n - 1)

unfoldable pub as_u32 : ℤ → ℕ
as_u32 (pos n) = n % 2 ^ 32
as_u32 (negsuc n) = 2 ^ 32 - 1 - n % 2 ^ 32

-- `as u64` of an `i64`, and `as u8` of an `i32`.
unfoldable pub as_u64 : ℤ → ℕ
as_u64 (pos n) = n % 2 ^ 64
as_u64 (negsuc n) = 2 ^ 64 - 1 - n % 2 ^ 64

unfoldable pub as_u8 : ℤ → ℕ
as_u8 (pos n) = n % 256
as_u8 (negsuc n) = 255 - n % 256

pub as_u32-as_i32 : (n : ℕ) → n < 2 ^ 32 → as_u32 (as_i32 n) ≡ n
unfolding as_u32 as_i32
as_u32-as_i32 n h = ground arith
