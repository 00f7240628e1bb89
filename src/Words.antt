-- ===== src/Words.antt =====
-- Casts between the fixed-width integers of the source: `as u32`, `as i32`, `as i16`.
use asteria_firmware.Prelude.{
  ℕ, suc, ◌-◌, ◌%◌, ◌^◌, ◌≤◌, ◌<◌, ◌≡◌, arith, Bool, true, false, ltb, if◌then◌else◌,
}
use asteria_firmware.Prelude.Int.{ℤ, pos, negsuc, sub_ℕ, ◌≤ℤ◌}

-- The bit pattern of a signed value, in two's complement.
unfoldable pub as_u32 : ℤ → ℕ
as_u32 (pos n) = n % 2 ^ 32
as_u32 (negsuc n) = 2 ^ 32 - 1 - n % 2 ^ 32

-- The signed value of a 32-bit pattern.
unfoldable pub as_i32 : ℕ → ℤ
as_i32 w = if ltb w (2 ^ 31) then pos w else negsuc (2 ^ 32 - 1 - w)

-- The signed value of the low 16 bits.
unfoldable pub as_i16 : ℕ → ℤ
as_i16 w = let low = w % 2 ^ 16 in if ltb low (2 ^ 15) then pos low else negsuc (2 ^ 16 - 1 - low)

abbrev pub i32_min : ℤ
i32_min = negsuc (2 ^ 31 - 1)

abbrev pub i32_max : ℤ
i32_max = pos (2 ^ 31 - 1)

pub as_u32-lt : (z : ℤ) → as_u32 z < 2 ^ 32
unfolding as_u32
as_u32-lt (pos n) = omega arith
as_u32-lt (negsuc n) = omega arith

-- A value in range comes back from its pattern.
pub as_i32-as_u32 : (z : ℤ) → i32_min ≤ℤ z → z ≤ℤ i32_max → as_i32 (as_u32 z) ≡ z
unfolding as_u32 as_i32
as_i32-as_u32 (pos n) lo hi = ground arith
as_i32-as_u32 (negsuc n) lo hi = ground arith

-- Arithmetic on `i32` and `i16` wraps: the boards are built with `overflow-checks = false`.
unfoldable pub wrap_i32 : ℤ → ℤ
unfolding as_u32 as_i32
wrap_i32 z = as_i32 (as_u32 z)

unfoldable pub wrap_i16 : ℤ → ℤ
unfolding as_u32 as_i16
wrap_i16 z = as_i16 (as_u32 z)

abbrev pub magnitude : ℤ → ℕ
magnitude (pos n) = n
magnitude (negsuc n) = suc n

unfoldable pub neg : ℤ → ℤ
neg (pos n) = sub_ℕ 0 n
neg (negsuc n) = pos (suc n)

abbrev pub is_negative : ℤ → Bool
is_negative (pos n) = false
is_negative (negsuc n) = true

pub neg-neg : (z : ℤ) → neg (neg z) ≡ z
unfolding neg
neg-neg (pos n) = ground arith
neg-neg (negsuc n) = ground arith

pub wrap_i32_in_range : (z : ℤ) → i32_min ≤ℤ z → z ≤ℤ i32_max → wrap_i32 z ≡ z
unfolding wrap_i32
wrap_i32_in_range z lo hi = as_i32-as_u32 z lo hi

pub wrap_i16_in_range : (z : ℤ) → magnitude z ≤ 32767 → wrap_i16 z ≡ z
unfolding wrap_i16
wrap_i16_in_range (pos n) h = ground arith
wrap_i16_in_range (negsuc n) h = ground arith
