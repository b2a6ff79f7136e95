-- ===== src/Base/Int.antt =====
-- Signed integers, and the narrowing conversions of C++ from int64_t.
use Prim.Native.Nat.{ℕ, ◌-◌, ◌%◌, ◌^◌, ◌<◌}
use mathlib.Core.Path.{◌≡◌}
use native.Mathlib.Omega.{arith}
use network_application.Base.Tests.{ltb, if◌then◌else◌}

-- `negsuc n` is -(n + 1).
pub data ℤ : Type 0 where
  pos : ℕ → ℤ
  negsuc : ℕ → ℤ

-- The residue of an integer, as a conversion to an unsigned type of `m` values takes it.
unfoldable pub residue : ℕ → ℤ → ℕ
residue m (pos n) = n % m
residue m (negsuc n) = m - 1 - n % m

-- static_cast<uint8_t>
unfoldable pub to_uint8 : ℤ → ℕ
unfolding residue
to_uint8 z = residue (2 ^ 8) z

-- The conversion to uint32_t.
unfoldable pub to_uint32 : ℤ → ℕ
unfolding residue
to_uint32 z = residue (2 ^ 32) z

-- The conversion to a 32-bit `int`: the residue, read as two's complement.
unfoldable pub to_int32 : ℤ → ℤ
unfolding residue
to_int32 z = let w = residue (2 ^ 32) z in if ltb w (2 ^ 31) then pos w else negsuc (2 ^ 32 - 1 - w)

-- The values of a 32-bit `int`.
abbrev pub IsInt32 : ℤ → Type 0
IsInt32 (pos n) = n < 2 ^ 31
IsInt32 (negsuc n) = n < 2 ^ 31

pub to_int32-IsInt32 : (z : ℤ) → IsInt32 (to_int32 z)
unfolding to_int32
to_int32-IsInt32 z = ground arith

pub to_int32_id : (z : ℤ) → IsInt32 z → to_int32 z ≡ z
unfolding to_int32
to_int32_id (pos n) h = ground arith
to_int32_id (negsuc n) h = ground arith

pub to_uint8-pos : (n : ℕ) → n < 256 → to_uint8 (pos n) ≡ n
unfolding to_uint8
to_uint8-pos n h = omega arith
