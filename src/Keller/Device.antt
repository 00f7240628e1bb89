-- ===== src/Keller/Device.antt =====
-- The registers of a Keller 23SX sensor (crates/devices/keller-pressure/src/lib.rs). Floats are a
-- parameter: what `f32::from_bits` makes of a pattern.
use asteria_firmware.Prelude.{
  ℕ, ◌+◌, ◌*◌, ◌/◌, ◌%◌, ◌^◌, bit_and, bit_or, Bool, List, ◌&&◌, leb, not, if◌then◌else◌, get_or,
}
use asteria_firmware.Keller.Uart.{
  Bitflags, UartSettings, Parsed, parsed, rejected, to_bits, try_from,
}
use asteria_firmware.Keller.Bus.{
  Modbus, Request, M, pure, fail, ◌>>=◌, invalid_data, addr_range, uart_settings, read_holdings,
  write_single,
}

-- The register addresses of `k23`.
abbrev reg_p1 : ℕ
reg_p1 = 0x0002

abbrev reg_p2 : ℕ
reg_p2 = 0x0004

abbrev reg_t : ℕ
reg_t = 0x0006

abbrev reg_tob_1 : ℕ
reg_tob_1 = 0x0008

abbrev reg_tob_2 : ℕ
reg_tob_2 = 0x000A

abbrev reg_p1_tob1_base : ℕ
reg_p1_tob1_base = 0x0100

abbrev reg_p2_tob2_base : ℕ
reg_p2_tob2_base = 0x0104

abbrev pub reg_uart_config : ℕ
reg_uart_config = 0x0200

abbrev reg_sn : ℕ
reg_sn = 0x0202

abbrev reg_cfg_p : ℕ
reg_cfg_p = 0x0204

abbrev reg_cfg_t : ℕ
reg_cfg_t = 0x0205

abbrev reg_status : ℕ
reg_status = 0x020C

abbrev pub reg_dev_addr : ℕ
reg_dev_addr = 0x020D

abbrev reg_fw_class : ℕ
reg_fw_class = 0x020E

abbrev reg_fw_date : ℕ
reg_fw_date = 0x020F

-- The flags of `ActivePressure`, `ActiveTemp` and `Status`.
abbrev active_pressure_flags : ℕ
active_pressure_flags = bit_or (2 ^ 1) (2 ^ 2)

abbrev active_temp_flags : ℕ
active_temp_flags = bit_or (bit_or (2 ^ 3) (2 ^ 4)) (2 ^ 5)

abbrev power_up_mode : ℕ
power_up_mode = 2 ^ 7

abbrev error_flags : ℕ
error_flags = 2 ^ 0 + 2 ^ 1 + 2 ^ 2 + 2 ^ 3 + 2 ^ 4 + 2 ^ 5 + 2 ^ 6

abbrev status_flags : ℕ
status_flags = bit_or error_flags power_up_mode

unfoldable pub has_errors : Bitflags → ℕ → Bool
has_errors f status = f.intersects status error_flags

unfoldable pub is_in_power_up_mode : Bitflags → ℕ → Bool
is_in_power_up_mode f status = f.contains status power_up_mode

pub record FirmwareClassGroup : Type 0 where
  pub class : ℕ
  pub group : ℕ

pub record FirmwareDate : Type 0 where
  pub year : ℕ
  pub week : ℕ

-- `(hi << 16) | lo`.
unfoldable pub u32_from_words : ℕ → ℕ → ℕ
u32_from_words hi lo = bit_or (hi * 2 ^ 16) lo

abbrev pub request_for : ℕ → ℕ → ℕ → Request
request_for unit_id reg count = record { unit_id = unit_id; reg = reg; count = count }

-- `w[i]`; `read_holdings` has seen to it that the vector is long enough.
abbrev pub word : List ℕ → ℕ → ℕ
word w i = get_or w i 0

module _ (F : Type 0) (from_bits : ℕ → F) (m : Modbus) where
  abbrev pub f32_from_words : ℕ → ℕ → F
  f32_from_words hi lo = from_bits (u32_from_words hi lo)

  unfoldable pub read_value : ℕ → ℕ → M F
  read_value reg unit_id = do
    w ← read_holdings m 2 (request_for unit_id reg 2)
    pure (f32_from_words (word w 0) (word w 1))

  unfoldable pub read_values : ℕ → ℕ → M (F × F)
  read_values reg unit_id = do
    w ← read_holdings m 4 (request_for unit_id reg 4)
    pure (f32_from_words (word w 0) (word w 1), f32_from_words (word w 2) (word w 3))

  unfoldable pub read_p1 : ℕ → M F
  read_p1 unit_id = read_value reg_p1 unit_id

  unfoldable pub read_p2 : ℕ → M F
  read_p2 unit_id = read_value reg_p2 unit_id

  unfoldable pub read_t : ℕ → M F
  read_t unit_id = read_value reg_t unit_id

  unfoldable pub read_tob1 : ℕ → M F
  read_tob1 unit_id = read_value reg_tob_1 unit_id

  unfoldable pub read_tob2 : ℕ → M F
  read_tob2 unit_id = read_value reg_tob_2 unit_id

  unfoldable pub read_p1_tob1 : ℕ → M (F × F)
  read_p1_tob1 unit_id = read_values reg_p1_tob1_base unit_id

  unfoldable pub read_p2_tob2 : ℕ → M (F × F)
  read_p2_tob2 unit_id = read_values reg_p2_tob2_base unit_id

-- `(1..=247).contains(&v)`.
unfoldable pub is_address : ℕ → Bool
is_address v = leb 1 v && leb v 247

abbrev of_parsed : Parsed → M UartSettings
of_parsed (parsed s) = pure s
of_parsed (rejected e) = fail (uart_settings e)

module _ (m : Modbus) where
  unfoldable pub read_register : ℕ → ℕ → M ℕ
  read_register reg unit_id = do w ← read_holdings m 1 (request_for unit_id reg 1); pure (word w 0)

  unfoldable pub read_serial : ℕ → M ℕ
  read_serial unit_id = do
    w ← read_holdings m 2 (request_for unit_id reg_sn 2)
    pure (u32_from_words (word w 0) (word w 1))

  unfoldable pub read_dev_addr : ℕ → M ℕ
  read_dev_addr unit_id = do
    v ← read_register reg_dev_addr unit_id
    if is_address v then pure (v % 256) else fail invalid_data

  unfoldable pub write_dev_addr : ℕ → ℕ → M (Unit {0})
  write_dev_addr unit_id addr =
      if not (is_address addr)
      then fail addr_range
      else write_single m (request_for unit_id reg_dev_addr addr)

  unfoldable pub read_uart_settings : Bitflags → ℕ → M UartSettings
  read_uart_settings f unit_id = do
    w ← read_register reg_uart_config unit_id
    of_parsed (try_from f w)

  unfoldable pub write_uart_settings : ℕ → UartSettings → M (Unit {0})
  write_uart_settings unit_id settings =
      write_single m (request_for unit_id reg_uart_config (to_bits settings))

  unfoldable pub read_pressure_channel_flags : Bitflags → ℕ → M ℕ
  read_pressure_channel_flags f unit_id = do
    w ← read_register reg_cfg_p unit_id
    pure (f.truncate active_pressure_flags w)

  unfoldable pub read_temperature_channel_flags : Bitflags → ℕ → M ℕ
  read_temperature_channel_flags f unit_id = do
    w ← read_register reg_cfg_t unit_id
    pure (f.truncate active_temp_flags w)

  unfoldable pub read_status : Bitflags → ℕ → M ℕ
  read_status f unit_id = do w ← read_register reg_status unit_id; pure (f.truncate status_flags w)

  unfoldable pub read_firmware_class_group : ℕ → M FirmwareClassGroup
  read_firmware_class_group unit_id = do
    w ← read_register reg_fw_class unit_id
    pure (record { class = w / 2 ^ 8 % 256; group = bit_and w 0xFF % 256 })

  unfoldable pub read_firmware_date : ℕ → M FirmwareDate
  read_firmware_date unit_id = do
    w ← read_register reg_fw_date unit_id
    pure (record { year = w / 2 ^ 8 % 256; week = bit_and w 0xFF % 256 })
