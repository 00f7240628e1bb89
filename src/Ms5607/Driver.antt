-- ===== src/Ms5607/Driver.antt =====
-- The operations of the driver: start-up and measurement.
pub mod Barometer
use asteria_firmware.Prelude.{
  ℕ, zero, suc, ◌+◌, ◌*◌, ◌^◌, bit_or, Bool, true, false, List, [], ◌∷◌, Option, none, some,
  if◌then◌else◌,
}
use asteria_firmware.Prelude.Int.{ℤ}
use asteria_firmware.Ms5607.Prom.{Prom, update_word}
use asteria_firmware.Ms5607.Crc.{check_crc4}
use asteria_firmware.Ms5607.Compensation.{compensate}

-- What a read gives: bytes, or an error of the bus.
pub data Reply (E : Type 0) : Type 0 where
  got : List ℕ → Reply E
  fault : E → Reply E

-- The bus and the delays, which are libraries; `i2c_write` gives an error or none, and `write_read` reads
-- so many bytes.
pub record I2c : Type 1 where
  pub State : Type 0
  pub Error : Type 0
  pub i2c_write : State → ℕ → List ℕ → Option Error × State
  pub write_read : State → ℕ → List ℕ → ℕ → Reply Error × State
  pub delay_ms : State → ℕ → State
  pub delay_us : State → ℕ → State

-- The operations on `f32`.
pub record F32 : Type 1 where
  pub Carrier : Type 0
  pub as_f32 : ℤ → Carrier
  pub over_hundred : Carrier → Carrier

pub data ConversionType : Type 0 where
  d1 d2 : ConversionType

pub data Oversampling : Type 0 where
  osr256 osr512 osr1024 osr2048 osr4096 : Oversampling

abbrev pub osr_code : Oversampling → ℕ
osr_code osr256 = 0x00
osr_code osr512 = 0x02
osr_code osr1024 = 0x04
osr_code osr2048 = 0x06
osr_code osr4096 = 0x08

abbrev pub cmd_reset : ℕ
cmd_reset = 0x1E

abbrev pub cmd_adc_read : ℕ
cmd_adc_read = 0x00

abbrev pub cmd_prom_base : ℕ
cmd_prom_base = 0xA0

abbrev pub cmd_convert : ConversionType → ℕ
cmd_convert d1 = 0x40
cmd_convert d2 = 0x50

-- The longest conversion times, in microseconds.
unfoldable pub conversion_us : Oversampling → ℕ
conversion_us osr256 = 600
conversion_us osr512 = 1170
conversion_us osr1024 = 2280
conversion_us osr2048 = 4540
conversion_us osr4096 = 9040

-- `from_be_bytes`.
unfoldable pub be_value : ℕ → List ℕ → ℕ
be_value v [] = v
be_value v (byte ∷ bytes) = be_value (v * 2 ^ 8 + byte) bytes

pub record Measurement (F : Type 0) : Type 0 where
  pub pressure_mbar : F
  pub temperature_c : F

module _ (b : I2c) where
  pub record Ms5607 : Type 0 where
    pub i2c : b.State
    pub addr : ℕ
    pub prom : Prom

  pub data Run (A : Type 0) : Type 0 where
    ok : A → Ms5607 → Run A
    err : b.Error → Ms5607 → Run A

  abbrev pub M : Type 0 → Type 0
  M A = Ms5607 → Run A

  abbrev pub bind_run : {A B : Type 0} → Run A → (A → M B) → Run B
  bind_run (ok a s) f = f a s
  bind_run (err e s) f = err e s

  infixl 5 ◌>>=◌
  abbrev pub ◌>>=◌ : {A B : Type 0} → M A → (A → M B) → M B
  ◌>>=◌ m f s = bind_run (m s) f

  abbrev pub written : Ms5607 → Option b.Error → b.State → Run (Unit {0})
  written s none i2c = ok tt (record s { i2c = i2c })
  written s (some e) i2c = err e (record s { i2c = i2c })

  abbrev pub write_bytes : List ℕ → M (Unit {0})
  write_bytes bytes s = let r = b.i2c_write s.i2c s.addr bytes in written s r.0 r.1

  abbrev pub received : Ms5607 → Reply b.Error → b.State → Run (List ℕ)
  received s (got bytes) i2c = ok bytes (record s { i2c = i2c })
  received s (fault e) i2c = err e (record s { i2c = i2c })

  abbrev pub write_read : ℕ → ℕ → M (List ℕ)
  write_read cmd n s = let r = b.write_read s.i2c s.addr (cmd ∷ []) n in received s r.0 r.1

  unfoldable pub reset : M (Unit {0})
  reset = do
    done ← write_bytes (cmd_reset ∷ [])
    (λ s. ok tt (record s { i2c = b.delay_ms s.i2c 3 }))

  abbrev pub store_word : ℕ → List ℕ → M (Unit {0})
  store_word i buf s = ok tt (record s { prom = update_word i (λ w. be_value 0 buf) s.prom })

  -- The loop of `read_prom_all`, for so many words from `i` on.
  unfoldable pub read_prom_from : ℕ → ℕ → M (Unit {0})
  read_prom_from zero i s = ok tt s
  read_prom_from (suc n) i s =
      let rest = read_prom_from n (suc i) in
      (do buf ← write_read (cmd_prom_base + i * 2) 2; stored ← store_word i buf; rest) s

  unfoldable pub read_prom_all : M (Unit {0})
  read_prom_all = read_prom_from 8 0

  unfoldable pub new_with_addr : b.State → ℕ → Ms5607
  new_with_addr i2c addr = record {
    i2c = i2c;
    addr = addr;
    prom = record { c0 = 0; c1 = 0; c2 = 0; c3 = 0; c4 = 0; c5 = 0; c6 = 0; c7 = 0 };
  }

  unfoldable pub new : b.State → Bool → Ms5607
  new i2c csb_high = new_with_addr i2c (if csb_high then 0x76 else 0x77)

  -- `InitErrorKind`, with the sensor of `InitError`.
  pub data InitResult : Type 0 where
    initialized : Ms5607 → InitResult
    bus_error : b.Error → Ms5607 → InitResult
    crc_mismatch : Ms5607 → InitResult

  abbrev pub checked : Run (Unit {0}) → InitResult
  checked (err e s) = bus_error e s
  checked (ok done s) = if check_crc4 s.prom then initialized s else crc_mismatch s

  unfoldable pub init : Ms5607 → InitResult
  init s = checked (bind_run (reset s) (λ done. read_prom_all))

  unfoldable pub start_conversion : ConversionType → Oversampling → M (Unit {0})
  start_conversion conv osr = write_bytes (bit_or (cmd_convert conv) (osr_code osr) ∷ [])

  -- The first byte of the buffer stays 0.
  unfoldable pub read_adc : M ℕ
  read_adc = do buf ← write_read cmd_adc_read 3; (λ s. ok (be_value 0 (0 ∷ buf)) s)

  unfoldable pub wait_conversion : Oversampling → M (Unit {0})
  wait_conversion osr s = ok tt (record s { i2c = b.delay_us s.i2c (conversion_us osr) })

  -- A conversion is started, awaited and read.
  abbrev pub convert : ConversionType → Oversampling → M ℕ
  convert conv osr = do started ← start_conversion conv osr; waited ← wait_conversion osr; read_adc

  abbrev pub as_measurement : (f : F32) → ℤ × ℤ → Measurement f.Carrier
  as_measurement f (p, t) = record {
    pressure_mbar = f.over_hundred (f.as_f32 p);
    temperature_c = f.over_hundred (f.as_f32 t);
  }

  unfoldable pub measure : (f : F32) → Oversampling → M (Measurement f.Carrier)
  measure f osr = do
    d1_raw ← convert d1 osr
    d2_raw ← convert d2 osr
    (λ s. ok (as_measurement f (compensate s.prom d1_raw d2_raw)) s)
