-- ===== src/Keller/Uart/Register.antt =====
-- The settings through the register, and back.
use asteria_firmware.Prelude.{
  ℕ, ◌-◌, ◌*◌, ◌/◌, ◌%◌, ◌<◌, ◌≤◌, ◌≡◌, refl, ◌∙◌, arith, bit_and, Bool, true, false, ◌==◌, not,
  if◌then◌else◌, every, every-at, ltb, leb, ltb→lt, Bool-cases, inl, inr, ◌&&◌,
}
use asteria_firmware.Bits.Fields.{and_mask}
use asteria_firmware.Keller.Uart.{
  Bitflags, BaudRate, Parity, StopBits, IsBitflags, UartSettings, unknown_bits_set,
  reserved_baud_bits_set, baud9600, baud115200, no_parity, odd, even, one, two, to_bits, Parsed,
  parsed, rejected, settings_of, try_from, all_uart_flags, baud_reserved, baud_115200,
  parity_enable, parity_mode_even, stop_bit_two,
}

-- The operations, as they are documented.
abbrev pub masks : Bitflags
masks = record {
  known = λ all bits. bit_and bits all == bits;
  intersects = λ bits flags. not (bit_and bits flags == 0);
  contains = λ bits flags. bit_and bits flags == flags;
  truncate = λ all bits. bit_and bits all;
}

pub masks-IsBitflags : IsBitflags masks
masks-IsBitflags = record {
  known_law = λ all bits. refl;
  intersects_law = λ bits flags. refl;
  contains_law = λ bits flags. refl;
  truncate_law = λ all bits. refl;
}

try_from-masks :
    (f : Bitflags) (laws : IsBitflags f) (bits : ℕ) → try_from f bits ≡ try_from masks bits
unfolding try_from
try_from-masks f laws bits =
    rw
      (
        laws.known_law all_uart_flags bits,
        laws.intersects_law bits baud_reserved,
        laws.contains_law bits baud_115200,
        laws.contains_law bits parity_enable,
        laws.contains_law bits parity_mode_even,
        laws.contains_law bits stop_bit_two,
      )
      refl

rebuilt :
    (b : BaudRate) (p : Parity) (q : StopBits)
    → try_from masks (to_bits (record { baud_rate = b; parity = p; stop_bits = q }))
      ≡ parsed (record { baud_rate = b; parity = p; stop_bits = q })
unfolding try_from to_bits settings_of
rebuilt baud9600 no_parity one = refl
rebuilt baud9600 no_parity two = refl
rebuilt baud9600 odd one = refl
rebuilt baud9600 odd two = refl
rebuilt baud9600 even one = refl
rebuilt baud9600 even two = refl
rebuilt baud115200 no_parity one = refl
rebuilt baud115200 no_parity two = refl
rebuilt baud115200 odd one = refl
rebuilt baud115200 odd two = refl
rebuilt baud115200 even one = refl
rebuilt baud115200 even two = refl

-- Whatever settings are written to the register, the same settings are read from it.
pub try_from-to_bits :
    (f : Bitflags) → IsBitflags f → (s : UartSettings) → try_from f (to_bits s) ≡ parsed s
try_from-to_bits f laws s =
    try_from-masks f laws (to_bits s) ∙ rebuilt s.baud_rate s.parity s.stop_bits

-- The register without the parity mode, where no parity bit is used.
abbrev pub canonical : ℕ → ℕ
canonical bits = if bits / 16 % 2 == 0 then bits - 32 * (bits / 32 % 2) else bits

-- What is read from a register, as arithmetic on its value.
abbrev pub Reads : ℕ → Parsed → Type 0
Reads bits (parsed s) = ((bits < 128) × (bits / 2 % 8 ≡ 0)) × (to_bits s ≡ canonical bits)
Reads bits (rejected (unknown_bits_set n)) = (128 ≤ bits) × (n ≡ bits)
Reads bits (rejected (reserved_baud_bits_set n)) = ((bits < 128) × (1 ≤ bits / 2 % 8)) × (n ≡ bits)

abbrev agrees : ℕ → Parsed → Bool
agrees bits (parsed s) = (bits / 2 % 8 == 0) && (to_bits s == canonical bits)
agrees bits (rejected (unknown_bits_set n)) = false
agrees bits (rejected (reserved_baud_bits_set n)) = leb 1 (bits / 2 % 8) && (n == bits)

agrees-Reads : (bits : ℕ) (r : Parsed) → bits < 128 → agrees bits r ≡ true → Reads bits r
agrees-Reads bits (parsed s) below h = ((below, ground arith), ground arith)
agrees-Reads bits (rejected (unknown_bits_set n)) below h = absurd (ground arith)
agrees-Reads bits (rejected (reserved_baud_bits_set n)) below h =
    ((below, ground arith), ground arith)

every-agrees : every (λ bits. agrees bits (try_from masks bits)) 128 ≡ true
unfolding every try_from to_bits settings_of
every-agrees = refl

unknown : (bits : ℕ) → 128 ≤ bits → (bit_and bits all_uart_flags == bits) ≡ false
unknown bits high = rw (and_mask 7 bits) (ground arith)

high-Reads : (bits : ℕ) → 128 ≤ bits → Reads bits (try_from masks bits)
unfolding try_from
high-Reads bits high = rw (unknown bits high) (high, refl)

-- A register is read exactly if bits 1 to 3 and the bits from 7 on are 0, with an error that tells
-- these two cases apart; what is read stands for the register, less a parity mode that is not used.
try_from-Reads : (f : Bitflags) → IsBitflags f → (bits : ℕ) → Reads bits (try_from f bits)
try_from-Reads f laws bits = rw (try_from-masks f laws bits) (elim (Bool-cases (ltb bits 128)) [
  | inl low ↦
      agrees-Reads bits _ (ltb→lt bits 128 low)
        (every-at (λ n. agrees n (try_from masks n)) 128 bits (ltb→lt bits 128 low) every-agrees)
  | inr high ↦ high-Reads bits (ground arith)
])
