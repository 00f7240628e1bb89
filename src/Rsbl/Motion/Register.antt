-- ===== src/Rsbl/Motion/Register.antt =====
-- Step counts in the servo's registers.
use asteria_firmware.Prelude.{
  ℕ, suc, ◌+◌, ◌*◌, ◌/◌, ◌%◌, ◌^◌, ◌≤◌, ◌<◌, ◌≡◌, ap, ◌∙◌, arith, List, ◌∷◌, bit_or,
}
use asteria_firmware.Prelude.Int.{ℤ, pos, negsuc}
use asteria_firmware.Bits.Fields.{or_fields}
use asteria_firmware.Words.{magnitude, wrap_i16_in_range, as_u32, neg}
use asteria_firmware.Rsbl.Motion.{angle_reg, signed_register, word_at}

angle_reg_pos : (n : ℕ) → n ≤ 32766 → angle_reg (pos n) ≡ n
unfolding angle_reg as_u32
angle_reg_pos n h = omega arith

angle_reg_negsuc : (n : ℕ) → suc n ≤ 32766 → angle_reg (negsuc n) ≡ 32769 + n
unfolding angle_reg as_u32 neg
angle_reg_negsuc n h = rw (wrap_i16_in_range (pos (suc n)) (omega arith)) (omega arith)

word_at_split :
    (reg : ℕ) (rest : List ℕ) → reg < 65536 → word_at (reg % 256 ∷ reg / 256 ∷ rest) 0 ≡ reg
unfolding word_at
word_at_split reg rest h =
    ap (λ t. bit_or t (reg % 256)) fits
    ∙ or_fields 8 (reg / 256) (reg % 256) (omega arith)
    ∙ omega arith
  where
    fits : reg / 256 * 256 % 65536 ≡ reg / 256 * 256
    fits = omega arith

registered :
    (angle : ℤ) (reg : ℕ) (rest : List ℕ)
    → angle_reg angle ≡ reg
    → reg < 65536
    → signed_register reg ≡ angle
    → (angle_reg angle < 2 ^ 16)
      × (signed_register (word_at (angle_reg angle % 256 ∷ angle_reg angle / 256 ∷ rest) 0) ≡ angle)
registered angle reg rest e h back = rw e (h, ap signed_register (word_at_split reg rest h) ∙ back)

-- A step count that `move_steps` accepts comes back from the bytes that it is written as, low byte
-- first, when they are read as a sensor register.
signed_register-angle_reg :
    (angle : ℤ) (rest : List ℕ)
    → magnitude angle ≤ 32766
    → (angle_reg angle < 2 ^ 16)
      × (signed_register (word_at (angle_reg angle % 256 ∷ angle_reg angle / 256 ∷ rest) 0) ≡ angle)
signed_register-angle_reg (pos n) rest h =
    registered (pos n) n rest (angle_reg_pos n h) (omega arith)
      (unfold signed_register in ground arith)
signed_register-angle_reg (negsuc n) rest h =
    registered (negsuc n) (32769 + n) rest (angle_reg_negsuc n h) (omega arith)
      (unfold signed_register neg in ground arith)
