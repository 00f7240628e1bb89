-- ===== src/Bits/Step.antt =====
-- The native bit operations mean `bitwise`, a recursion on binary digits with fuel. Here the fuel
-- is dropped: one equation for the lowest digit.
use Prim.Native.Nat.{
  min, max, differ, digits, bitwise, bit_and-bitwise, bit_or-bitwise, bit_xor-bitwise,
}
use native.Mathlib.Nat.{
  le_refl, pow-suc, one-le-pow, div-add-mod, add-mul-mod_self_left, mod-eq_of_lt,
}
use asteria_firmware.Prelude.{
  ℕ, zero, suc, ◌+◌, ◌-◌, ◌*◌, ◌/◌, ◌%◌, ◌^◌, ◌≤◌, ◌<◌, bit_and, bit_or, bit_xor, ◌≡◌, refl, ap,
  ◌∙◌, arith,
}

-- `n` with `spare` more.
abbrev raised : ℕ → ℕ → ℕ
raised zero n = n
raised (suc spare) n = suc (raised spare n)

raised-sum : (spare n : ℕ) → raised spare n ≡ spare + n
raised-sum zero n = omega arith
raised-sum (suc spare) n = omega (arith, raised-sum spare n)

module _ (rest : ℕ → ℕ) (op : ℕ → ℕ → ℕ) where
  -- Fuel that covers the first number is enough: one more changes nothing.
  one_more : (fuel x y : ℕ) → x ≤ fuel → digits rest op (suc fuel) x y ≡ digits rest op fuel x y
  one_more zero zero y enough = refl
  one_more zero (suc x) y enough = elim enough [ ]
  one_more (suc fuel) zero y enough = refl
  one_more (suc fuel) (suc x) y enough =
      ap (λ t. t * 2 + op (suc x % 2) (y % 2)) (one_more fuel (suc x / 2) (y / 2) (omega arith))

  any_more :
      (spare fuel x y : ℕ)
      → x ≤ fuel
      → digits rest op (raised spare fuel) x y ≡ digits rest op fuel x y
  any_more zero fuel x y enough = refl
  any_more (suc spare) fuel x y enough =
      one_more (raised spare fuel) x y (omega (arith, raised-sum spare fuel))
      ∙ any_more spare fuel x y enough

  lowest_digit :
      (x y : ℕ)
      → bitwise rest op (suc x) y ≡ bitwise rest op (suc x / 2) (y / 2) * 2 + op (suc x % 2) (y % 2)
  lowest_digit x y = ap (λ t. t * 2 + op (suc x % 2) (y % 2)) halves
    where
      half : ℕ
      half = suc x / 2

      split : x ≡ raised (x - half) half
      split = omega (arith, raised-sum (x - half) half)

      halves : digits rest op x half (y / 2) ≡ digits rest op half half (y / 2)
      halves =
          ap (λ fuel. digits rest op fuel half (y / 2)) split
          ∙ any_more (x - half) half half (y / 2) (le_refl half)

pub and_step : (x y : ℕ) → bit_and x y ≡ bit_and (x / 2) (y / 2) * 2 + min (x % 2) (y % 2)
and_step zero y = simp bit_and-bitwise (omega arith)
and_step (suc x) y = simp bit_and-bitwise (lowest_digit (λ _. 0) min x y)

pub or_step : (x y : ℕ) → bit_or x y ≡ bit_or (x / 2) (y / 2) * 2 + max (x % 2) (y % 2)
or_step zero y = simp bit_or-bitwise (omega arith)
or_step (suc x) y = simp bit_or-bitwise (lowest_digit (λ t. t) max x y)

differ_sum : (x y : ℕ) → x < 2 → y < 2 → differ x y ≡ (x + y) % 2
differ_sum zero zero p q = refl
differ_sum zero (suc zero) p q = refl
differ_sum zero (suc (suc y)) p q = absurd (omega arith)
differ_sum (suc zero) zero p q = refl
differ_sum (suc zero) (suc zero) p q = refl
differ_sum (suc zero) (suc (suc y)) p q = absurd (omega arith)
differ_sum (suc (suc x)) y p q = absurd (omega arith)

xor_digit : (a b : ℕ) → bit_xor a b ≡ bit_xor (a / 2) (b / 2) * 2 + differ (a % 2) (b % 2)
xor_digit zero b = simp bit_xor-bitwise (omega arith)
xor_digit (suc a) b = simp bit_xor-bitwise (lowest_digit (λ t. t) differ a b)

pub xor_step : (a b : ℕ) → bit_xor a b ≡ bit_xor (a / 2) (b / 2) * 2 + (a + b) % 2
xor_step a b = omega (arith, xor_digit a b, differ_sum (a % 2) (b % 2) (omega arith) (omega arith))

mod_twice : (m a : ℕ) → 0 < m → a % (m * 2) ≡ a / 2 % m * 2 + a % 2
mod_twice m a pos =
    ap (λ t. t % (m * 2)) split
    ∙ add-mul-mod_self_left (a / 2 % m * 2 + a % 2) (m * 2) (a / 2 / m)
    ∙ mod-eq_of_lt small
  where
    below : a / 2 % m < m
    below = omega arith

    small : a / 2 % m * 2 + a % 2 < m * 2
    small = omega (arith, below)

    halves : a / 2 ≡ a / 2 % m + m * (a / 2 / m)
    halves = omega arith

    split : a ≡ a / 2 % m * 2 + a % 2 + m * 2 * (a / 2 / m)
    split = omega (arith, halves)

-- The remainder by `2 ^ k`, one digit at a time.
pub mod_double : (k a : ℕ) → a % 2 ^ suc k ≡ a / 2 % 2 ^ k * 2 + a % 2
mod_double k a = rw (pow-suc 2 k) (mod_twice (2 ^ k) a (one-le-pow k 2 (omega arith)))

pub mod_double_half : (k a : ℕ) → a % 2 ^ suc k / 2 ≡ a / 2 % 2 ^ k
mod_double_half k a = omega (arith, mod_double k a)

mod_twice_top : (m a : ℕ) → 0 < m → a % (m * 2) ≡ a / m % 2 * m + a % m
mod_twice_top m a pos =
    ap (λ t. t % (m * 2)) split
    ∙ add-mul-mod_self_left (a / m % 2 * m + a % m) (m * 2) (a / m / 2)
    ∙ mod-eq_of_lt (below (a / m % 2) (omega arith))
  where
    below : (x : ℕ) → x < 2 → x * m + a % m < m * 2
    below zero h = omega arith
    below (suc zero) h = omega arith
    below (suc (suc x)) h = absurd (omega arith)

    regroup : (q : ℕ) → q * m ≡ q % 2 * m + m * 2 * (q / 2)
    regroup q = omega (arith, ap (λ (t : ℕ). t * m) (div-add-mod q 2))

    split : a ≡ a / m % 2 * m + a % m + m * 2 * (a / m / 2)
    split = omega (arith, regroup (a / m), div-add-mod a m)

-- The remainder by `2 ^ (k + 1)`, split at its highest digit.
pub mod_top : (k a : ℕ) → a % 2 ^ suc k ≡ a / 2 ^ k % 2 * 2 ^ k + a % 2 ^ k
mod_top k a = rw (pow-suc 2 k) (mod_twice_top (2 ^ k) a (one-le-pow k 2 (omega arith)))
