-- ===== src/Ms5607/Driver/Barometer.antt =====
-- The driver in front of a barometer that behaves as its data sheet says.
use asteria_firmware.Prelude.{
  ℕ, zero, suc, ◌+◌, ◌*◌, ◌/◌, ◌%◌, ◌^◌, ◌≤◌, ◌<◌, ◌≡◌, refl, arith, bit_or, List, [], ◌∷◌, none,
  if◌then◌else◌,
}
use asteria_firmware.Ms5607.Prom.{Prom, update_word, prom_word}
use asteria_firmware.Ms5607.Crc.{check_crc4}
use asteria_firmware.Ms5607.Compensation.{compensated}
use asteria_firmware.Ms5607.Compensation.Exact.{exact, IsU16, compensate-exact}
use asteria_firmware.Ms5607.Driver.{
  got, I2c, F32, ConversionType, d1, d2, Oversampling, osr256, osr512, osr1024, osr2048, osr4096,
  cmd_convert, osr_code, be_value, conversion_us, Ms5607, ok, initialized, crc_mismatch, reset,
  read_prom_from, read_prom_all, init, start_conversion, read_adc, wait_conversion, convert,
  as_measurement, measure,
}

-- The commands and the longest conversion times of the data sheet.
abbrev pub command_of : ConversionType → Oversampling → ℕ
command_of d1 osr256 = 0x40
command_of d1 osr512 = 0x42
command_of d1 osr1024 = 0x44
command_of d1 osr2048 = 0x46
command_of d1 osr4096 = 0x48
command_of d2 osr256 = 0x50
command_of d2 osr512 = 0x52
command_of d2 osr1024 = 0x54
command_of d2 osr2048 = 0x56
command_of d2 osr4096 = 0x58

abbrev pub longest_us : Oversampling → ℕ
longest_us osr256 = 600
longest_us osr512 = 1170
longest_us osr1024 = 2280
longest_us osr2048 = 4540
longest_us osr4096 = 9040

-- It acknowledges what is written, has these words in its memory, and answers a read with the result of
-- the conversion that was started, when the longest time for it has passed.
pub record IsBarometer (b : I2c) (addr : ℕ) (p : Prom) (reading : ConversionType → ℕ) : Type 0 where
  pub acks : (s : b.State) (bytes : List ℕ) → (b.i2c_write s addr bytes).0 ≡ none
  pub remembers :
      (s : b.State) (i : ℕ)
      → i < 8
      → (b.write_read s addr ((0xA0 + i * 2) ∷ []) 2).0
        ≡ got (prom_word p i / 2 ^ 8 ∷ prom_word p i % 2 ^ 8 ∷ [])
  pub converts :
      (s : b.State) (c : ConversionType) (o : Oversampling) (us : ℕ)
      → longest_us o ≤ us
      → (b.write_read
          (b.delay_us (b.i2c_write s addr (command_of c o ∷ [])).1 us)
          addr
          (0 ∷ [])
          3).0
        ≡ got (reading c / 2 ^ 16 ∷ reading c / 2 ^ 8 % 2 ^ 8 ∷ reading c % 2 ^ 8 ∷ [])

command-command_of :
    (c : ConversionType) (o : Oversampling) → bit_or (cmd_convert c) (osr_code o) ≡ command_of c o
command-command_of d1 osr256 = refl
command-command_of d1 osr512 = refl
command-command_of d1 osr1024 = refl
command-command_of d1 osr2048 = refl
command-command_of d1 osr4096 = refl
command-command_of d2 osr256 = refl
command-command_of d2 osr512 = refl
command-command_of d2 osr1024 = refl
command-command_of d2 osr2048 = refl
command-command_of d2 osr4096 = refl

conversion_us-longest_us : (o : Oversampling) → conversion_us o ≡ longest_us o
unfolding conversion_us
conversion_us-longest_us osr256 = refl
conversion_us-longest_us osr512 = refl
conversion_us-longest_us osr1024 = refl
conversion_us-longest_us osr2048 = refl
conversion_us-longest_us osr4096 = refl

abbrev pub sensor : (b : I2c) → ℕ → b.State → Prom → Ms5607 b
sensor b addr i2c q = record { i2c = i2c; addr = addr; prom = q }

module _ (b : I2c) (addr : ℕ) (p : Prom) (reading : ConversionType → ℕ)
    (device : IsBarometer b addr p reading) where
  -- The words from `i` on are replaced by those of the device.
  abbrev filled : ℕ → ℕ → Prom → Prom
  filled zero i q = q
  filled (suc n) i q = filled n (suc i) (update_word i (λ w. prom_word p i) q)

  abbrev after_read : b.State → ℕ → b.State
  after_read st i = (b.write_read st addr ((0xA0 + i * 2) ∷ []) 2).1

  abbrev after_reads : ℕ → ℕ → b.State → b.State
  after_reads zero i st = st
  after_reads (suc n) i st = after_reads n (suc i) (after_read st i)

  read_prom_from-filled :
      (n i : ℕ) (st : b.State) (q : Prom)
      → i + n ≤ 8
      → read_prom_from b n i (sensor b addr st q)
        ≡ ok tt (sensor b addr (after_reads n i st) (filled n i q))
  unfolding read_prom_from be_value
  read_prom_from-filled zero i st q h = refl
  read_prom_from-filled (suc n) i st q h =
      let joined : (0 * 2 ^ 8 + prom_word p i / 2 ^ 8) * 2 ^ 8 + prom_word p i % 2 ^ 8
          ≡ prom_word p i =
        omega arith in
      rw (device.remembers st i (omega arith), joined)
        (read_prom_from-filled n (suc i) (after_read st i) (update_word i (λ w. prom_word p i) q)
          (omega arith))

  after_reset : b.State → b.State
  after_reset st = b.delay_ms (b.i2c_write st addr (0x1E ∷ [])).1 3

  -- In front of such a barometer the start-up reads its whole memory, whatever the driver held before,
  -- and ends with a sensor that holds it, or with a mismatch if it does not pass the check.
  pub init-reads :
      (st : b.State) (q : Prom)
      → (last : b.State) × (init b (sensor b addr st q) ≡ (
          if check_crc4 p
          then initialized (sensor b addr last p)
          else crc_mismatch (sensor b addr last p)))
  unfolding init reset read_prom_all after_reset
  init-reads st q = (
    after_reads 8 0 (after_reset st),
    rw (device.acks st (0x1E ∷ []), read_prom_from-filled 8 0 (after_reset st) q (omega arith))
        refl,
  )

  abbrev after_conversion : ConversionType → Oversampling → b.State → b.State
  after_conversion c o st =
      (b.write_read (b.delay_us (b.i2c_write st addr (command_of c o ∷ [])).1 (longest_us o)) addr
        (0 ∷ []) 3).1

  convert-reading :
      (c : ConversionType) (o : Oversampling) (st : b.State)
      → convert b c o (sensor b addr st p)
        ≡ ok (reading c) (sensor b addr (after_conversion c o st) p)
  unfolding start_conversion wait_conversion read_adc be_value
  convert-reading c o st =
      let joined : (((0 * 2 ^ 8 + 0) * 2 ^ 8 + reading c / 2 ^ 16) * 2 ^ 8
                + reading c / 2 ^ 8 % 2 ^ 8)
              * 2 ^ 8
            + reading c % 2 ^ 8
          ≡ reading c =
        omega arith in
      rw
        (
          command-command_of c o,
          device.acks st (command_of c o ∷ []),
          conversion_us-longest_us o,
          device.converts st c o (longest_us o) (omega arith),
          joined,
        )
        refl

  -- In front of such a barometer whose readings have 24 bits and whose coefficients have 16, a
  -- measurement with any oversampling succeeds, and gives what the formula of the compensation gives on
  -- the integers for its readings of pressure and temperature.
  pub measure-exact :
      (f : F32) (o : Oversampling) (st : b.State)
      → IsU16 p
      → reading d1 < 2 ^ 24
      → reading d2 < 2 ^ 24
      → (last : b.State) × (measure b f o (sensor b addr st p)
          ≡ ok
              (as_measurement b f (compensated exact p (reading d1) (reading d2)))
              (sensor b addr last p))
  unfolding measure
  measure-exact f o st u h k = (
    after_conversion d2 o (after_conversion d1 o st),
    rw
        (
          convert-reading d1 o st,
          convert-reading d2 o (after_conversion d1 o st),
          compensate-exact p (reading d1) (reading d2) u h k,
        )
        refl,
  )
