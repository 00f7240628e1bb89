-- ===== src/Bits/Xor.antt =====
-- Exclusive or: a group operation that commutes with shifts and stays within a width.
use native.Mathlib.Nat.{pow-suc, div-div-eq-div-mul, div-one, mod-one}
use asteria_firmware.Prelude.{
  ℕ, zero, suc, ◌+◌, ◌*◌, ◌/◌, ◌%◌, ◌^◌, ◌≤◌, ◌<◌, bit_xor, ◌≡◌, refl, sym, ap, ◌∙◌, arith,
}
use asteria_firmware.Bits.Step.{xor_step, mod_double, mod_double_half}

xor-zero_fuel : (n a : ℕ) → a ≤ n → bit_xor a 0 ≡ a
xor-zero_fuel n zero h = refl
xor-zero_fuel zero (suc a) h = absurd (omega arith)
xor-zero_fuel (suc n) (suc a) h =
    omega (arith, xor_step (suc a) 0, xor-zero_fuel n (suc a / 2) (omega arith))

pub xor-zero : (a : ℕ) → bit_xor a 0 ≡ a
xor-zero a = xor-zero_fuel a a (omega arith)

zero-xor_fuel : (n b : ℕ) → b ≤ n → bit_xor 0 b ≡ b
zero-xor_fuel n zero h = refl
zero-xor_fuel zero (suc b) h = absurd (omega arith)
zero-xor_fuel (suc n) (suc b) h =
    omega (arith, xor_step 0 (suc b), zero-xor_fuel n (suc b / 2) (omega arith))

pub zero-xor : (b : ℕ) → bit_xor 0 b ≡ b
zero-xor b = zero-xor_fuel b b (omega arith)

xor_comm_fuel : (n a b : ℕ) → a ≤ n → bit_xor a b ≡ bit_xor b a
xor_comm_fuel n zero b h = omega (arith, xor-zero b, zero-xor b)
xor_comm_fuel zero (suc a) b h = absurd (omega arith)
xor_comm_fuel (suc n) (suc a) b h = omega (
  arith,
  xor_step (suc a) b,
  xor_step b (suc a),
  xor_comm_fuel n (suc a / 2) (b / 2) (omega arith),
)

pub xor_comm : (a b : ℕ) → bit_xor a b ≡ bit_xor b a
xor_comm a b = xor_comm_fuel a a b (omega arith)

pub xor_half : (a b : ℕ) → bit_xor a b / 2 ≡ bit_xor (a / 2) (b / 2)
xor_half a b = omega (arith, xor_step a b)

pub xor_parity : (a b : ℕ) → bit_xor a b % 2 ≡ (a + b) % 2
xor_parity a b = omega (arith, xor_step a b)

xor_assoc_fuel : (n a b c : ℕ) → a + b + c ≤ n → bit_xor (bit_xor a b) c ≡ bit_xor a (bit_xor b c)
xor_assoc_fuel zero zero zero zero h = refl
xor_assoc_fuel zero zero zero (suc c) h = absurd (omega arith)
xor_assoc_fuel zero zero (suc b) c h = absurd (omega arith)
xor_assoc_fuel zero (suc a) b c h = absurd (omega arith)
xor_assoc_fuel (suc n) a b c h =
    let ih = xor_assoc_fuel n (a / 2) (b / 2) (c / 2) (omega arith) in
    rw (xor_step (bit_xor a b) c, xor_step a (bit_xor b c), xor_half a b, xor_half b c, ih)
      (omega (arith, xor_parity a b, xor_parity b c))

pub xor_assoc : (a b c : ℕ) → bit_xor (bit_xor a b) c ≡ bit_xor a (bit_xor b c)
xor_assoc a b c = xor_assoc_fuel (a + b + c) a b c (omega arith)

xor_self_fuel : (n a : ℕ) → a ≤ n → bit_xor a a ≡ 0
xor_self_fuel n zero h = refl
xor_self_fuel zero (suc a) h = absurd (omega arith)
xor_self_fuel (suc n) (suc a) h =
    omega (arith, xor_step (suc a) (suc a), xor_self_fuel n (suc a / 2) (omega arith))

pub xor_self : (a : ℕ) → bit_xor a a ≡ 0
xor_self a = xor_self_fuel a a (omega arith)

pub xor_cancel : (a b : ℕ) → bit_xor (bit_xor a b) b ≡ a
xor_cancel a b = xor_assoc a b b ∙ ap (bit_xor a) (xor_self b) ∙ xor-zero a

pub xor_swap : (a b c : ℕ) → bit_xor (bit_xor a b) c ≡ bit_xor (bit_xor a c) b
xor_swap a b c = xor_assoc a b c ∙ ap (bit_xor a) (xor_comm b c) ∙ sym (xor_assoc a c b)

pub xor_injective : (a b c : ℕ) → bit_xor a c ≡ bit_xor b c → a ≡ b
xor_injective a b c e = sym (xor_cancel a c) ∙ ap (λ t. bit_xor t c) e ∙ xor_cancel b c

-- The values below `2 ^ k` are closed under exclusive or.
pub xor-lt : (k a b : ℕ) → a < 2 ^ k → b < 2 ^ k → bit_xor a b < 2 ^ k
xor-lt zero zero zero p q = omega arith
xor-lt zero zero (suc b) p q = absurd (omega arith)
xor-lt zero (suc a) b p q = absurd (omega arith)
xor-lt (suc k) a b p q = ground (arith, pow-suc 2 k, xor_step a b, xor-lt k (a / 2) (b / 2))

pub xor-div : (k a b : ℕ) → bit_xor a b / 2 ^ k ≡ bit_xor (a / 2 ^ k) (b / 2 ^ k)
xor-div zero a b = rw (div-one (bit_xor a b), div-one a, div-one b)
xor-div (suc k) a b =
    rw (div_pow_suc (bit_xor a b), div_pow_suc a, div_pow_suc b, xor-div k a b)
      (xor_half (a / 2 ^ k) (b / 2 ^ k))
  where
    div_pow_suc : (n : ℕ) → n / 2 ^ suc k ≡ n / 2 ^ k / 2
    div_pow_suc n = rw (pow-suc 2 k) (sym (div-div-eq-div-mul n (2 ^ k) 2))

pub double-xor : (a b : ℕ) → bit_xor (2 * a) (2 * b) ≡ 2 * bit_xor a b
double-xor a b = rw (xor_step (2 * a) (2 * b)) (rw (half a, half b) (omega arith))
  where
    half : (a : ℕ) → 2 * a / 2 ≡ a
    half a = omega arith

-- A low digit slips in where both lowest digits are 0.
pub double-xor_digit : (a b x : ℕ) → x < 2 → bit_xor (2 * a) (2 * b + x) ≡ 2 * bit_xor a b + x
double-xor_digit a b x h = rw (xor_step (2 * a) (2 * b + x)) (rw (half a, half_digit) (omega arith))
  where
    half : (a : ℕ) → 2 * a / 2 ≡ a
    half a = omega arith

    half_digit : (2 * b + x) / 2 ≡ b
    half_digit = omega arith

pub xor-mod : (k a b : ℕ) → bit_xor a b % 2 ^ k ≡ bit_xor (a % 2 ^ k) (b % 2 ^ k)
xor-mod zero a b = rw (mod-one (bit_xor a b), mod-one a, mod-one b)
xor-mod (suc k) a b =
    rw
      (
        mod_double k (bit_xor a b),
        xor_half a b,
        xor_parity a b,
        xor-mod k (a / 2) (b / 2),
        xor_step (a % 2 ^ suc k) (b % 2 ^ suc k),
      )
      (rw (mod_double_half k a, mod_double_half k b)
        (omega (arith, mod_double k a, mod_double k b)))
