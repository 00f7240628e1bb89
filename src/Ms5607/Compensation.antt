-- ===== src/Ms5607/Compensation.antt =====
-- The compensation of the raw readings (crates/devices/ms5607/src/lib.rs, compensate).
pub mod Bounded
pub mod Exact
use asteria_firmware.Prelude.{ℕ, ◌-◌, ◌*◌, ◌/◌, ◌%◌, ◌^◌, suc, if◌then◌else◌, ltb}
use asteria_firmware.Prelude.Int.{ℤ, pos, negsuc, sub_ℕ, ◌+ℤ◌, ◌-ℤ◌, ◌*ℤ◌, ltb_ℤ}
use asteria_firmware.Words.{wrap_i32}
use asteria_firmware.Ms5607.Prom.{Prom}

-- Arithmetic on `i64` wraps.
unfoldable pub as_u64 : ℤ → ℕ
as_u64 (pos n) = n % 2 ^ 64
as_u64 (negsuc n) = 2 ^ 64 - 1 - n % 2 ^ 64

unfoldable pub as_i64 : ℕ → ℤ
as_i64 w = if ltb w (2 ^ 63) then pos w else negsuc (2 ^ 64 - 1 - w)

unfoldable pub wrap_i64 : ℤ → ℤ
wrap_i64 z = as_i64 (as_u64 z)

-- The arithmetic shift to the right by k, for d = 2^k.
unfoldable pub shr : ℕ → ℤ → ℤ
shr d (pos n) = pos (n / d)
shr d (negsuc n) = negsuc (n / d)

-- The division rounds towards zero.
unfoldable pub div : ℤ → ℕ → ℤ
div (pos n) d = pos (n / d)
div (negsuc n) d = sub_ℕ 0 (suc n / d)

pub record Correction : Type 0 where
  pub t2 : ℤ
  pub off2 : ℤ
  pub sens2 : ℤ

-- `w` is what the arithmetic does with a result; `c1` to `c6` are the coefficients.
module _ (w : ℤ → ℤ) where
  unfoldable pub dt : ℕ → ℕ → ℤ
  dt c5 d2 = w (pos d2 -ℤ w (pos (c5 * 2 ^ 8)))

  unfoldable pub temp : ℕ → ℤ → ℤ
  temp c6 dt = w (pos 2000 +ℤ div (w (dt *ℤ pos c6)) (2 ^ 23))

  unfoldable pub off : ℕ → ℕ → ℤ → ℤ
  off c2 c4 dt = w (w (pos (c2 * 2 ^ 17)) +ℤ shr (2 ^ 6) (w (pos c4 *ℤ dt)))

  unfoldable pub sens : ℕ → ℕ → ℤ → ℤ
  sens c1 c3 dt = w (w (pos (c1 * 2 ^ 16)) +ℤ shr (2 ^ 7) (w (pos c3 *ℤ dt)))

  abbrev pub low : ℤ → ℤ → Correction
  low temp dt =
      let t_low = w (temp -ℤ pos 2000) in
      record {
        t2 = shr (2 ^ 31) (w (dt *ℤ dt));
        off2 = shr (2 ^ 4) (w (w (pos 61 *ℤ t_low) *ℤ t_low));
        sens2 = w (w (pos 2 *ℤ t_low) *ℤ t_low);
      }

  abbrev pub very_low : ℤ → Correction → Correction
  very_low temp c =
      let t_vlow = w (temp +ℤ pos 1500) in
      record c {
        off2 = w (c.off2 +ℤ w (w (pos 15 *ℤ t_vlow) *ℤ t_vlow));
        sens2 = w (c.sens2 +ℤ w (w (pos 8 *ℤ t_vlow) *ℤ t_vlow));
      }

  -- The second order, which is for low temperatures.
  unfoldable pub correction : ℤ → ℤ → Correction
  correction temp dt =
      if ltb_ℤ temp (pos 2000)
      then (if ltb_ℤ temp (negsuc 1499) then very_low temp (low temp dt) else low temp dt)
      else record { t2 = pos 0; off2 = pos 0; sens2 = pos 0 }

  unfoldable pub pressure : ℕ → ℤ → ℤ → Correction → ℤ
  pressure d1 off sens c =
      let off_corrected = w (off -ℤ c.off2) in
      let sens_corrected = w (sens -ℤ c.sens2) in
      shr (2 ^ 15) (w (shr (2 ^ 21) (w (pos d1 *ℤ sens_corrected)) -ℤ off_corrected))

  -- The pressure and the temperature, as `i64`.
  unfoldable pub compensated : Prom → ℕ → ℕ → ℤ × ℤ
  compensated prom d1 d2 =
      let delta = dt prom.c5 d2 in
      let t = temp prom.c6 delta in
      let c = correction t delta in
      (pressure d1 (off prom.c2 prom.c4 delta) (sens prom.c1 prom.c3 delta) c, w (t -ℤ c.t2))

unfoldable pub compensate : Prom → ℕ → ℕ → ℤ × ℤ
compensate prom d1 d2 = let r = compensated wrap_i64 prom d1 d2 in (wrap_i32 r.0, wrap_i32 r.1)
