-- ===== src/Ms5607/Examples.antt =====
-- The example of the data sheet, and a barometer that behaves as it says.
use asteria_firmware.Prelude.{
  ℕ, ◌+◌, ◌-◌, ◌*◌, ◌/◌, ◌%◌, ◌^◌, ◌≡◌, refl, arith, bit_xor, true, false, List, [], ◌∷◌, none, ltb,
  ◌==◌, if◌then◌else◌,
}
use asteria_firmware.Prelude.Int.{ℤ}
use asteria_firmware.Ms5607.Prom.{Prom, update_word, prom_word}
use asteria_firmware.Ms5607.Crc.{
  crc_bit, crc_bits, crc_byte, crc_word, crc_words, final_nibble, calculate_crc4, check_crc4,
}
use asteria_firmware.Ms5607.Crc.Detect.{check_crc4_detects}
use asteria_firmware.Ms5607.Compensation.{compensated, compensate}
use asteria_firmware.Ms5607.Compensation.Exact.{exact, IsU16, compensate-exact}
use asteria_firmware.Ms5607.Driver.{
  got, I2c, F32, ConversionType, d1, d2, Oversampling, osr256, osr512, osr1024, osr2048, osr4096,
  ok, initialized, crc_mismatch, init, as_measurement, measure,
}
use asteria_firmware.Ms5607.Driver.Barometer.{
  command_of, IsBarometer, sensor, init-reads, measure-exact,
}

-- The memory of the test of the driver, and the coefficients of the data sheet.
abbrev tested : Prom
tested = record {
  c0 = 0x3132;
  c1 = 0x3334;
  c2 = 0x3536;
  c3 = 0x3738;
  c4 = 0x3940;
  c5 = 0x4142;
  c6 = 0x4344;
  c7 = 0x450B;
}

abbrev data_sheet : Prom
data_sheet = record {
  c0 = 0;
  c1 = 46372;
  c2 = 43981;
  c3 = 29059;
  c4 = 27842;
  c5 = 31553;
  c6 = 28165;
  c7 = 0;
}

tested-check_crc4 : check_crc4 tested ≡ true
unfolding check_crc4 calculate_crc4 final_nibble crc_words crc_word crc_byte crc_bits crc_bit
tested-check_crc4 = refl

check_crc4_detects_example :
    check_crc4 (update_word 3 (λ w. bit_xor w ((4 + 1) * 2 ^ 7)) tested) ≡ false
check_crc4_detects_example =
    check_crc4_detects tested 3 7 4 (omega arith) (omega arith) (omega arith) tested-check_crc4

data_sheet-IsU16 : IsU16 data_sheet
data_sheet-IsU16 = record {
  u1 = omega arith;
  u2 = omega arith;
  u3 = omega arith;
  u4 = omega arith;
  u5 = omega arith;
  u6 = omega arith;
}

compensate-exact_example :
    compensate data_sheet 6465444 8077636 ≡ compensated exact data_sheet 6465444 8077636
compensate-exact_example =
    compensate-exact data_sheet 6465444 8077636 data_sheet-IsU16 (omega arith) (omega arith)

abbrev reading : ConversionType → ℕ
reading d1 = 6465444
reading d2 = 8077636

abbrev first : List ℕ → ℕ
first [] = 0
first (b ∷ bs) = b

abbrev started_by : ℕ → ConversionType
started_by command = if ltb command 0x50 then d1 else d2

-- The state is the last command that was written.
abbrev bench : I2c
bench = record {
  State = ℕ;
  Error = ℕ;
  i2c_write = λ s addr bytes. (none, first bytes);
  write_read = λ s addr bytes n. (
    if n == 2
        then got (
            prom_word data_sheet ((first bytes - 0xA0) / 2) / 2 ^ 8
            ∷ prom_word data_sheet ((first bytes - 0xA0) / 2) % 2 ^ 8
            ∷ [])
        else got (
            reading (started_by s) / 2 ^ 16
            ∷ reading (started_by s) / 2 ^ 8 % 2 ^ 8
            ∷ reading (started_by s) % 2 ^ 8
            ∷ []),
    s,
  );
  delay_ms = λ s ms. s;
  delay_us = λ s us. s;
}

started_by-command_of : (c : ConversionType) (o : Oversampling) → started_by (command_of c o) ≡ c
started_by-command_of d1 osr256 = refl
started_by-command_of d1 osr512 = refl
started_by-command_of d1 osr1024 = refl
started_by-command_of d1 osr2048 = refl
started_by-command_of d1 osr4096 = refl
started_by-command_of d2 osr256 = refl
started_by-command_of d2 osr512 = refl
started_by-command_of d2 osr1024 = refl
started_by-command_of d2 osr2048 = refl
started_by-command_of d2 osr4096 = refl

bench-IsBarometer : IsBarometer bench 0x76 data_sheet reading
bench-IsBarometer = record {
  acks = λ s bytes. refl;
  remembers = λ s i h. let index : (0xA0 + i * 2 - 0xA0) / 2 ≡ i = omega arith in rw index refl;
  converts = λ s c o us h. rw (started_by-command_of c o) refl;
}

abbrev floats : F32
floats = record { Carrier = ℤ; as_f32 = λ z. z; over_hundred = λ z. z }

init-reads_example :
    (last : ℕ) × (init bench (sensor bench 0x76 0 tested) ≡ (
      if check_crc4 data_sheet
      then initialized (sensor bench 0x76 last data_sheet)
      else crc_mismatch (sensor bench 0x76 last data_sheet)))
init-reads_example = init-reads bench 0x76 data_sheet reading bench-IsBarometer 0 tested

measure-exact_example :
    (last : ℕ) × (measure bench floats osr1024 (sensor bench 0x76 0 data_sheet)
      ≡ ok
          (as_measurement bench floats (compensated exact data_sheet 6465444 8077636))
          (sensor bench 0x76 last data_sheet))
measure-exact_example =
    measure-exact bench 0x76 data_sheet reading bench-IsBarometer floats osr1024 0 data_sheet-IsU16
      (omega arith) (omega arith)
