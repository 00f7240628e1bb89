-- ===== src/Lox/Valve/Offset.antt =====
-- Positions relative to the home position of the valve.
use asteria_firmware.Prelude.{
  ℕ, ◌+◌, ◌-◌, ◌%◌, ◌^◌, ◌≡◌, refl, arith, ltb, Bool-cases, inl, inr, ◌*◌, ◌/◌, ◌⊎◌,
}
use asteria_firmware.Prelude.Int.{
  ℤ, pos, negsuc, pos_part, neg_part, ◌+ℤ◌, ◌-ℤ◌, ◌≤ℤ◌, int_laws, eq_of_parts,
}
use asteria_firmware.Words.{as_u32, as_i32, wrap_i32, i32_min, i32_max}
use asteria_firmware.Lox.Valve.{rel_to_abs, abs_to_rel}

-- A wrapped value lies a multiple of 2 ^ 32 away.
wrap_i32-offset :
    (z : ℤ)
    → (k : ℕ) × (l : ℕ) × (pos_part (wrap_i32 z) + neg_part z + k * 2 ^ 32
        ≡ neg_part (wrap_i32 z) + pos_part z + l * 2 ^ 32)
unfolding wrap_i32 as_u32 as_i32
wrap_i32-offset (pos n) = elim (Bool-cases (ltb (n % 2 ^ 32) (2 ^ 31))) [
  | inl low ↦ (n / 2 ^ 32, 0, ground (arith, low))
  | inr high ↦ (n / 2 ^ 32 + 1, 0, ground (arith, high))
]
wrap_i32-offset (negsuc n) = elim (Bool-cases (ltb (2 ^ 32 - 1 - n % 2 ^ 32) (2 ^ 31))) [
  | inl low ↦ (0, n / 2 ^ 32 + 1, ground (arith, low))
  | inr high ↦ (0, n / 2 ^ 32, ground (arith, high))
]

-- A wrapped value is in range.
wrap_i32-range : (z : ℤ) → (i32_min ≤ℤ wrap_i32 z) × (wrap_i32 z ≤ℤ i32_max)
unfolding wrap_i32 as_u32 as_i32
wrap_i32-range (pos n) = ground arith
wrap_i32-range (negsuc n) = ground arith

one_part : (z : ℤ) → (pos_part z ≡ 0) ⊎ (neg_part z ≡ 0)
one_part (pos n) = inr refl
one_part (negsuc n) = inl refl

-- Relative counts come back from the absolute counts that they are sent as, whatever the home offset
-- is and also where the sum wraps.
pub abs_to_rel-rel_to_abs :
    (home x : ℤ) → i32_min ≤ℤ x → x ≤ℤ i32_max → abs_to_rel home (rel_to_abs home x) ≡ x
unfolding rel_to_abs abs_to_rel
abs_to_rel-rel_to_abs home x lo hi =
    let there = wrap_i32 (x +ℤ home) in
    let a = wrap_i32-offset (x +ℤ home) in
    let b = wrap_i32-offset (there -ℤ home) in
    let c = wrap_i32-range (there -ℤ home) in
    eq_of_parts (wrap_i32 (there -ℤ home)) x
      (omega (int_laws, a.2, b.2, c.0, c.1, lo, hi, one_part x))
