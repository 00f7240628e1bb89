-- ===== src/Epos4/Crc.antt =====
-- The CRC-16-CCITT of the frames: `update_crc`, `calculate_crc` and `check_crc`.
pub mod Linear
pub mod Detect
use asteria_firmware.Prelude.{
  ℕ, zero, suc, ◌+◌, ◌*◌, ◌/◌, ◌%◌, ◌^◌, bit_and, bit_xor, Bool, List, [], ◌∷◌, ◌++◌, ◌==◌, ◌!=◌,
  if◌then◌else◌,
}

-- One round of the loop of `update_crc`, at the mask `shifter`. After the shift the lowest bit is 0,
-- so `*crc += 1` does not overflow.
unfoldable pub crc_round : ℕ → ℕ → ℕ → ℕ
crc_round crc value shifter =
    let shifted = crc * 2 % 2 ^ 16 in
    let added = if bit_and value shifter != 0 then shifted + 1 else shifted in
    if bit_and crc 0x8000 != 0 then bit_xor added 0x1021 else added

-- `while shifter > 0`, on fuel.
unfoldable pub crc_loop : ℕ → ℕ → ℕ → ℕ → ℕ
crc_loop zero crc value shifter = crc
crc_loop (suc fuel) crc value shifter =
    let rest = crc_loop fuel (crc_round crc value shifter) value (shifter / 2) in
    if shifter == 0 then crc else rest

-- The mask starts at bit 15 and is halved, so 16 rounds reach 0.
unfoldable pub update_crc : ℕ → ℕ → ℕ
unfolding crc_loop crc_round
update_crc crc value = crc_loop 17 crc value 0x8000

unfoldable pub update_all : ℕ → List ℕ → ℕ
update_all crc [] = crc
update_all crc (word ∷ words) = update_all (update_crc crc word) words

unfoldable pub calculate_crc : ℕ → List ℕ → ℕ
calculate_crc header words = update_crc (update_all (update_crc 0 header) words) 0

unfoldable pub check_crc : ℕ → List ℕ → List ℕ → ℕ → Bool
check_crc header error_code words target_crc =
    let crc = update_all (update_all (update_crc 0 header) error_code) words in
    update_crc crc target_crc == 0
