-- ===== src/Keller/Uart.antt =====
-- The UART register of a sensor (crates/devices/keller-pressure/src/lib.rs). The library that the
-- flags are declared with is not part of the repository: its operations are a parameter.
pub mod Register
use asteria_firmware.Prelude.{ℕ, bit_and, bit_or, ◌≡◌, Bool, true, false, ◌==◌, not, if◌then◌else◌}

-- `from_bits` is `Some`, `intersects` and `contains`; `known` and `truncate` take the bits of all the
-- declared flags first.
pub record Bitflags : Type 0 where
  pub known : ℕ → ℕ → Bool
  pub intersects : ℕ → ℕ → Bool
  pub contains : ℕ → ℕ → Bool
  pub truncate : ℕ → ℕ → ℕ

-- What the library documents of them.
pub record IsBitflags (f : Bitflags) : Type 0 where
  pub known_law : (all bits : ℕ) → f.known all bits ≡ (bit_and bits all == bits)
  pub intersects_law : (bits flags : ℕ) → f.intersects bits flags ≡ not (bit_and bits flags == 0)
  pub contains_law : (bits flags : ℕ) → f.contains bits flags ≡ (bit_and bits flags == flags)
  pub truncate_law : (all bits : ℕ) → f.truncate all bits ≡ bit_and bits all

pub data UartSettingsError : Type 0 where
  unknown_bits_set : ℕ → UartSettingsError
  reserved_baud_bits_set : ℕ → UartSettingsError

pub data BaudRate : Type 0 where
  baud9600 baud115200 : BaudRate

pub data Parity : Type 0 where
  no_parity odd even : Parity

pub data StopBits : Type 0 where
  one two : StopBits

-- `UartRegisterFlags`.
abbrev pub baud_115200 : ℕ
baud_115200 = 0x01

abbrev pub baud_reserved : ℕ
baud_reserved = 0x0E

abbrev pub parity_enable : ℕ
parity_enable = 0x10

abbrev pub parity_mode_even : ℕ
parity_mode_even = 0x20

abbrev pub stop_bit_two : ℕ
stop_bit_two = 0x40

abbrev pub all_uart_flags : ℕ
all_uart_flags = 0x7F

pub record UartSettings : Type 0 where
  pub baud_rate : BaudRate
  pub parity : Parity
  pub stop_bits : StopBits

abbrev baud_bits : BaudRate → ℕ → ℕ
baud_bits baud9600 bits = bits
baud_bits baud115200 bits = bit_or bits baud_115200

abbrev parity_bits : Parity → ℕ → ℕ
parity_bits no_parity bits = bits
parity_bits odd bits = bit_or bits parity_enable
parity_bits even bits = bit_or bits (bit_or parity_enable parity_mode_even)

abbrev stop_bits_bits : StopBits → ℕ → ℕ
stop_bits_bits one bits = bits
stop_bits_bits two bits = bit_or bits stop_bit_two

unfoldable pub to_bits : UartSettings → ℕ
to_bits s = stop_bits_bits s.stop_bits (parity_bits s.parity (baud_bits s.baud_rate 0))

pub data Parsed : Type 0 where
  parsed : UartSettings → Parsed
  rejected : UartSettingsError → Parsed

-- The match on the two parity flags.
abbrev parity_of : Bool → Bool → Parity
parity_of false mode = no_parity
parity_of true false = odd
parity_of true true = even

unfoldable pub settings_of : Bool → Bool → Bool → Bool → UartSettings
settings_of fast enable mode stops = record {
  baud_rate = if fast then baud115200 else baud9600;
  parity = parity_of enable mode;
  stop_bits = if stops then two else one;
}

-- `UartSettings::try_from`.
unfoldable pub try_from : Bitflags → ℕ → Parsed
try_from f bits =
    if f.known all_uart_flags bits
    then (if f.intersects bits baud_reserved
        then rejected (reserved_baud_bits_set bits)
        else parsed (
            settings_of (f.contains bits baud_115200) (f.contains bits parity_enable)
              (f.contains bits parity_mode_even) (f.contains bits stop_bit_two)))
    else rejected (unknown_bits_set bits)
