-- ===== src/Epos4/Device/Codes.antt =====
-- The code tables of the driver are inverse to each other.
use asteria_firmware.Prelude.{
  ℕ, ◌+◌, ◌*◌, ◌%◌, ◌^◌, ◌<◌, bit_and, bit_or, bit_xor, ◌≡◌, ◌↔◌, refl, ◌∙◌, arith, Option, Bool,
  none, some, false, true, sym, ap, ◌==◌, ==_iff, every, every-at,
}
use asteria_firmware.Bits.Fields.{or_fields, and-mod}
use asteria_firmware.Bits.Or.{or_comm}
use asteria_firmware.Bits.Xor.{xor-mod}
use asteria_firmware.Epos4.Device.{
  DeviceError, no_error, of_code, from_words, code, is_error, EposStatus, not_ready_to_switch_on,
  switch_on_disabled, ready_to_switch_on, switched_on, operation_enabled, quick_stop_active,
  fault_reaction_active, fault, unknown_status, from_status_word,
}

code-of_code : (v : ℕ) → code (of_code v) ≡ v
unfolding of_code code
code-of_code v = ground arith

-- The two words of an error code are read as the error whose code they make up, low word first:
-- nothing of the code is lost, for known and unknown codes.
code-from_words : (low high : ℕ) → low < 2 ^ 16 → code (from_words low high) ≡ low + high * 2 ^ 16
unfolding from_words
code-from_words low high h =
    code-of_code (bit_or low (high * 65536))
    ∙ or_comm low (high * 65536)
    ∙ or_fields 16 high low h
    ∙ omega arith

code_zero : (e : DeviceError) → is_error e ≡ false → code e ≡ 0
unfolding code
code_zero no_error h = refl
code_zero _ h = cc

pub no_error_words :
    (low high : ℕ) → low < 2 ^ 16 → is_error (from_words low high) ≡ false → (low ≡ 0) × (high ≡ 0)
no_error_words low high h e = omega (arith, code-from_words low high h, code_zero _ e)

-- The discriminants that `EposStatus` writes out.
unfoldable pub status_code : EposStatus → Option ℕ
status_code not_ready_to_switch_on = some 0
status_code switch_on_disabled = some 0b100_0000
status_code ready_to_switch_on = some 0b010_0001
status_code switched_on = some 0b010_0011
status_code operation_enabled = some 0b010_0111
status_code quick_stop_active = some 0b000_0111
status_code fault_reaction_active = some 0b000_1111
status_code fault = some 0b000_1000
status_code unknown_status = none

-- A status word is read as a known state exactly when its masked bits are that state's code.
pub from_status_word-status_code :
    (w : ℕ) (s : EposStatus) (c : ℕ)
    → status_code s ≡ some c
    → (from_status_word w ≡ s) ↔ (bit_and w 0b0110_1111 ≡ c)
unfolding status_code from_status_word
from_status_word-status_code w s c h = ground arith

-- Whether a pattern and the same with bit 4 turned over look alike behind the mask.
abbrev alike : ℕ → Bool
alike w = bit_and (bit_xor w 0b0001_0000) 0b0110_1111 == bit_and w 0b0110_1111

every-alike : every alike 128 ≡ true
unfolding every
every-alike = refl

-- Bit 4 of the status word does not enter the state.
pub from_status_word_bit_4 : (w : ℕ) → from_status_word (bit_xor w 0b0001_0000) ≡ from_status_word w
unfolding from_status_word
from_status_word_bit_4 w = rw same
  where
    low : bit_and (bit_xor (w % 128) 16) 111 ≡ bit_and (w % 128) 111
    low = (==_iff _ _).0 (every-at alike 128 (w % 128) (omega arith) every-alike)

    same : bit_and (bit_xor w 16) 111 ≡ bit_and w 111
    same =
        and-mod 7 (bit_xor w 16) 111 (omega arith)
        ∙ ap (λ t. bit_and t 111) (xor-mod 7 w 16)
        ∙ low
        ∙ sym (and-mod 7 w 111 (omega arith))
