-- ===== src/Bits/Fields.antt =====
-- `&` with a mask of low bits or with one bit, and `|` of disjoint fields, as arithmetic.
use Prim.Native.Nat.{min}
use native.Mathlib.Nat.{pow-suc, pow-succ', one-le-pow, div-div-eq-div-mul}
use asteria_firmware.Prelude.{
  ℕ, zero, suc, ◌+◌, ◌-◌, ◌*◌, ◌/◌, ◌%◌, ◌^◌, ◌≤◌, ◌<◌, bit_and, bit_or, ◌≡◌, refl, sym, ap, ap₂,
  ◌∙◌, arith, ◌==◌, ◌!=◌,
}
use asteria_firmware.Bits.Step.{and_step, or_step, mod_double, mod_double_half}

and-zero_fuel : (n a : ℕ) → a ≤ n → bit_and a 0 ≡ 0
and-zero_fuel n zero h = refl
and-zero_fuel zero (suc a) h = absurd (omega arith)
and-zero_fuel (suc n) (suc a) h =
    omega (arith, and_step (suc a) 0, and-zero_fuel n (suc a / 2) (omega arith))

pub and-zero : (a : ℕ) → bit_and a 0 ≡ 0
and-zero a = and-zero_fuel a a (omega arith)

or-zero_fuel : (n a : ℕ) → a ≤ n → bit_or a 0 ≡ a
or-zero_fuel n zero h = refl
or-zero_fuel zero (suc a) h = absurd (omega arith)
or-zero_fuel (suc n) (suc a) h =
    omega (arith, or_step (suc a) 0, or-zero_fuel n (suc a / 2) (omega arith))

pub or-zero : (a : ℕ) → bit_or a 0 ≡ a
or-zero a = or-zero_fuel a a (omega arith)

-- One bit, tested by its mask.
pub and_one_bit : (k a : ℕ) → bit_and a (2 ^ k) ≡ a / 2 ^ k % 2 * 2 ^ k
and_one_bit zero a = omega (arith, and_step a 1, and-zero (a / 2))
and_one_bit (suc k) a =
    rw (and_step a (2 ^ suc k), half)
      (rw (and_one_bit k (a / 2), deeper) (omega (arith, two_pow, scaled)))
  where
    two_pow : 2 ^ suc k ≡ 2 ^ k * 2
    two_pow = pow-suc 2 k

    half : 2 ^ suc k / 2 ≡ 2 ^ k
    half = omega (arith, two_pow)

    scaled : a / 2 / 2 ^ k % 2 * 2 ^ suc k ≡ a / 2 / 2 ^ k % 2 * 2 ^ k * 2
    scaled = omega (arith, ap (λ (t : ℕ). a / 2 / 2 ^ k % 2 * t) two_pow)

    deeper : a / 2 ^ suc k ≡ a / 2 / 2 ^ k
    deeper = rw (pow-succ' 2 k) (sym (div-div-eq-div-mul a 2 (2 ^ k)))

pub and_mask : (k a : ℕ) → bit_and a (2 ^ k - 1) ≡ a % 2 ^ k
and_mask zero a = omega (arith, and-zero a)
and_mask (suc k) a =
    rw (and_step a (2 ^ suc k - 1), half)
      (rw (and_mask k (a / 2), mod_double k a)
        (omega (arith, two_pow, one-le-pow k 2 (omega arith))))
  where
    two_pow : 2 ^ suc k ≡ 2 ^ k * 2
    two_pow = pow-suc 2 k

    half : (2 ^ suc k - 1) / 2 ≡ 2 ^ k - 1
    half = omega (arith, two_pow)

pub or_fields : (k q r : ℕ) → r < 2 ^ k → bit_or (q * 2 ^ k) r ≡ q * 2 ^ k + r
or_fields zero q zero h = omega (arith, or-zero (q * 1))
or_fields zero q (suc r) h = absurd (omega arith)
or_fields (suc k) q r h =
    rw (or_step (q * 2 ^ suc k) r, half)
      (rw (or_fields k q (r / 2) (omega (arith, two_pow))) (omega (arith, two_pow, scaled)))
  where
    two_pow : 2 ^ suc k ≡ 2 ^ k * 2
    two_pow = pow-suc 2 k

    scaled : q * 2 ^ suc k ≡ q * 2 ^ k * 2
    scaled = omega (arith, ap (λ (t : ℕ). q * t) two_pow)

    half : q * 2 ^ suc k / 2 ≡ q * 2 ^ k
    half = omega (arith, scaled)

one_bit_set : (x p : ℕ) → x < 2 → 0 < p → (x * p != 0) ≡ (x == 1)
one_bit_set zero p h q = ground arith
one_bit_set (suc zero) p h q = ground arith
one_bit_set (suc (suc x)) p h q = absurd (omega arith)

-- The test of one bit by its mask.
pub test_bit : (k a : ℕ) → (bit_and a (2 ^ k) != 0) ≡ (a / 2 ^ k % 2 == 1)
test_bit k a =
    rw (and_one_bit k a)
      (one_bit_set (a / 2 ^ k % 2) (2 ^ k) (omega arith) (one-le-pow k 2 (omega arith)))

-- Only the bits below a mask's width enter.
pub and-mod : (k a m : ℕ) → m < 2 ^ k → bit_and a m ≡ bit_and (a % 2 ^ k) m
and-mod zero a zero h = and-zero a ∙ sym (and-zero (a % 1))
and-mod zero a (suc m) h = absurd (omega arith)
and-mod (suc k) a m h =
    and_step a m
    ∙ ap₂ (λ t u. t * 2 + min u (m % 2))
        (and-mod k (a / 2) (m / 2) (omega (arith, pow-suc 2 k))
          ∙ ap (λ t. bit_and t (m / 2)) (sym (mod_double_half k a)))
        (sym lowest)
    ∙ sym (and_step (a % 2 ^ suc k) m)
  where
    lowest : a % 2 ^ suc k % 2 ≡ a % 2
    lowest = omega (arith, mod_double k a)
