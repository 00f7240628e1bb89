-- ===== src/Ms5607/Crc.antt =====
-- The checksum of the calibration memory: `calculate_crc4` and `check_crc4`.
pub mod Linear
pub mod Detect
use asteria_firmware.Prelude.{
  ℕ, zero, suc, ◌*◌, ◌/◌, ◌%◌, ◌^◌, bit_and, bit_xor, Bool, List, [], ◌∷◌, ◌==◌, ◌!=◌,
  if◌then◌else◌,
}
use asteria_firmware.Ms5607.Prom.{Prom}

-- One round of the inner loop.
unfoldable pub crc_bit : ℕ → ℕ
crc_bit n_rem =
    let shifted = n_rem * 2 % 2 ^ 16 in
    if bit_and n_rem 0x8000 != 0 then bit_xor shifted 0x3000 else shifted

unfoldable pub crc_bits : ℕ → ℕ → ℕ
crc_bits zero n_rem = n_rem
crc_bits (suc n) n_rem = crc_bits n (crc_bit n_rem)

unfoldable pub crc_byte : ℕ → ℕ → ℕ
crc_byte n_rem byte = crc_bits 8 (bit_xor n_rem byte)

-- The rounds of the outer loop at the two bytes of a word.
unfoldable pub crc_word : ℕ → ℕ → ℕ
crc_word n_rem word = crc_byte (crc_byte n_rem (word / 2 ^ 8)) (bit_and word 0xFF)

unfoldable pub crc_words : ℕ → List ℕ → ℕ
crc_words n_rem [] = n_rem
crc_words n_rem (word ∷ words) = crc_words (crc_word n_rem word) words

-- The words that the checksum covers: of the last one its high byte.
abbrev pub covered : Prom → List ℕ
covered p = p.c0 ∷ p.c1 ∷ p.c2 ∷ p.c3 ∷ p.c4 ∷ p.c5 ∷ p.c6 ∷ bit_and p.c7 0xFF00 ∷ []

unfoldable pub final_nibble : ℕ → ℕ
final_nibble n_rem = bit_and (n_rem / 2 ^ 12) 0xF

unfoldable pub calculate_crc4 : Prom → ℕ
calculate_crc4 p = final_nibble (crc_words 0 (covered p))

unfoldable pub check_crc4 : Prom → Bool
check_crc4 p = calculate_crc4 p == bit_and p.c7 0xF
