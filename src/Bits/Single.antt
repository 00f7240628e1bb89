-- ===== src/Bits/Single.antt =====
-- One bit of a number, through `&` and `|`.
use Prim.Native.Nat.{min, max}
use native.Mathlib.Nat.{pow-succ', div-div-eq-div-mul}
use asteria_firmware.Prelude.{ℕ, zero, suc, ◌/◌, ◌%◌, ◌^◌, bit_and, bit_or, ◌≡◌, refl, arith}
use asteria_firmware.Bits.Step.{and_step, or_step}

abbrev pub bit : ℕ → ℕ → ℕ
bit k a = a / 2 ^ k % 2

-- A higher bit is a bit of the half.
bit-half : (k a : ℕ) → bit (suc k) a ≡ bit k (a / 2)
bit-half k a = rw (pow-succ' 2 k, ← div-div-eq-div-mul a 2 (2 ^ k)) refl

pub bit-or : (k a b : ℕ) → bit k (bit_or a b) ≡ max (bit k a) (bit k b)
bit-or zero a b = omega (arith, or_step a b)
bit-or (suc k) a b =
    rw (bit-half k (bit_or a b), bit-half k a, bit-half k b, half) (bit-or k (a / 2) (b / 2))
  where
    half : bit_or a b / 2 ≡ bit_or (a / 2) (b / 2)
    half = omega (arith, or_step a b)

pub bit-and : (k a b : ℕ) → bit k (bit_and a b) ≡ min (bit k a) (bit k b)
bit-and zero a b = omega (arith, and_step a b)
bit-and (suc k) a b =
    rw (bit-half k (bit_and a b), bit-half k a, bit-half k b, half) (bit-and k (a / 2) (b / 2))
  where
    half : bit_and a b / 2 ≡ bit_and (a / 2) (b / 2)
    half = omega (arith, and_step a b)
