-- ===== src/Bits/Or.antt =====
-- `|` is commutative.
use asteria_firmware.Prelude.{ℕ, zero, suc, ◌+◌, ◌/◌, ◌≤◌, bit_or, ◌≡◌, refl, arith}
use asteria_firmware.Bits.Step.{or_step}

or_comm_fuel : (n a b : ℕ) → a + b ≤ n → bit_or a b ≡ bit_or b a
or_comm_fuel zero zero zero h = refl
or_comm_fuel zero zero (suc b) h = absurd (omega arith)
or_comm_fuel zero (suc a) b h = absurd (omega arith)
or_comm_fuel (suc n) a b h =
    omega (arith, or_step a b, or_step b a, or_comm_fuel n (a / 2) (b / 2) (omega arith))

pub or_comm : (a b : ℕ) → bit_or a b ≡ bit_or b a
or_comm a b = or_comm_fuel (a + b) a b (omega arith)
