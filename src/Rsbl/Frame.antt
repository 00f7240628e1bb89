-- ===== src/Rsbl/Frame.antt =====
-- Instruction and status frames: `write_to_servo`, `read_from_servo` and the accesses built on them.
pub mod Sent
pub mod Reply
use asteria_firmware.Prelude.{
  ℕ, zero, suc, ◌+◌, ◌-◌, ◌%◌, ◌^◌, Bool, true, false, List, [], ◌∷◌, ◌++◌, Option, none, some,
  ◌==◌, ◌!=◌, if◌then◌else◌, length, get_or, replicate,
}
use asteria_firmware.Rsbl.Bus.{
  M, ◌>>=◌, ◌>>◌, pure, fail, ignore, read_byte, read_bytes, clear_ringbuffer, write, flush,
  internal_error, wrong_checksum, wrong_format,
}

abbrev pub header_byte : ℕ
header_byte = 0xFF

abbrev pub broadcast : ℕ
broadcast = 0xFE

-- The registers and instructions that the driver uses.
abbrev pub id_register : ℕ
id_register = 0x05

abbrev pub min_angle_limit_h : ℕ
min_angle_limit_h = 0x09

abbrev pub operation_mode : ℕ
operation_mode = 0x21

abbrev pub target_location_h : ℕ
target_location_h = 0x2A

abbrev pub lock_mark : ℕ
lock_mark = 0x37

abbrev pub current_location_h : ℕ
current_location_h = 0x38

abbrev pub ping_instruction : ℕ
ping_instruction = 0x01

abbrev pub read_instruction : ℕ
read_instruction = 0x02

abbrev pub write_instruction : ℕ
write_instruction = 0x03

abbrev pub sum : List ℕ → ℕ
sum [] = 0
sum (x ∷ xs) = x + sum xs

abbrev pub unwrap_or {ℓ} : {A : Type ℓ} → Option A → A → A
unwrap_or none d = d
unwrap_or (some a) d = a

-- `!(sum as u8)`. The sum is a `u16`, which 250 bytes do not fill.
unfoldable pub calc_checksum : ℕ → ℕ → ℕ → Option ℕ → Option (List ℕ) → ℕ
calc_checksum id len instruction register bytes =
    let total = sum (unwrap_or bytes (0 ∷ [])) + (id + len + instruction + unwrap_or register 0) in
    255 - total % 2 ^ 16 % 2 ^ 8

-- The branch of `write_to_servo` with a register.
unfoldable pub write_register : ℕ → ℕ → ℕ → List ℕ → M (Unit {0})
write_register id instruction register bytes =
    let len = (length bytes + 3) % 2 ^ 8 in
    let checksum = calc_checksum id len instruction (some register) (some bytes) in
    do
      write (header_byte ∷ header_byte ∷ id ∷ len ∷ instruction ∷ [])
      write (register ∷ [])
      write bytes
      write (checksum ∷ [])
      flush

-- The branch without: data are refused there.
unfoldable pub write_bare : ℕ → ℕ → Option (List ℕ) → M (Unit {0})
write_bare id instruction (some bytes) = fail wrong_format
write_bare id instruction none =
    let checksum = calc_checksum id 2 instruction none none in
    do write (header_byte ∷ header_byte ∷ id ∷ 2 ∷ instruction ∷ checksum ∷ []); flush

unfoldable pub write_to_servo : ℕ → ℕ → Option ℕ → Option (List ℕ) → M (Unit {0})
write_to_servo id instruction (some register) bytes =
    write_register id instruction register (unwrap_or bytes [])
write_to_servo id instruction none bytes = write_bare id instruction bytes

-- The checks of `read_from_servo`, on a whole frame.
unfoldable pub check_frame : ℕ → List ℕ → List ℕ → ℕ → M (List ℕ)
check_frame n header bytes checksum =
    let id = get_or header 2 0 in
    let len = get_or header 3 0 in
    let status = get_or header 4 0 in
    if n + 2 != len
    then fail wrong_format
    else if checksum == calc_checksum id len status none (some bytes)
    then (if status == 0 then pure bytes else fail internal_error)
    else fail wrong_checksum

-- The part of `read_from_servo` behind the return for broadcasts, with the length of the buffer; it
-- returns what the buffer then holds.
unfoldable pub read_frame : ℕ → M (List ℕ)
read_frame n = do
  header ← read_bytes 5
  bytes ← read_bytes n
  checksum ← read_byte
  ignore clear_ringbuffer
  check_frame n header bytes checksum

-- A broadcast is not answered and leaves the buffer as it is: each caller hands in `n` zeros.
unfoldable pub read_from_servo : ℕ → ℕ → M (List ℕ)
read_from_servo id n = if id == broadcast then pure (replicate n 0) else read_frame n

unfoldable pub ping : ℕ → M (Unit {0})
ping id = do write_to_servo id ping_instruction none none; _ ← read_from_servo id 0; pure tt

unfoldable pub read_data : ℕ → ℕ → ℕ → M (List ℕ)
read_data id start_address n = do
  write_to_servo id read_instruction (some start_address) (some (n % 2 ^ 8 ∷ []))
  read_from_servo id n

unfoldable pub write_data : ℕ → ℕ → List ℕ → M (Unit {0})
write_data id start_address bytes = do
  write_to_servo id write_instruction (some start_address) (some bytes)
  _ ← read_from_servo id 0
  pure tt

-- `setup_servo`.
unfoldable pub setup_servo : ℕ → ℕ → M (Unit {0})
setup_servo original_id new_id = do
  write_data original_id lock_mark (0x00 ∷ [])
  write_data original_id id_register (new_id ∷ [])
  write_data new_id operation_mode (0x03 ∷ [])
  write_data new_id min_angle_limit_h (0x00 ∷ 0x00 ∷ 0x00 ∷ 0x00 ∷ [])
  write_data new_id lock_mark (0x01 ∷ [])
  pure tt
