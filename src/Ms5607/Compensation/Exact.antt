-- ===== src/Ms5607/Compensation/Exact.antt =====
-- The compensation does not overflow.
use asteria_firmware.Prelude.{
  ℕ, ◌+◌, ◌*◌, ◌^◌, ◌≤◌, ◌<◌, ◌≡◌, refl, ◌∙◌, ap, ap₂, arith, Bool-cases, inl, inr,
}
use asteria_firmware.Prelude.Int.{ℤ, pos, negsuc, ◌+ℤ◌, ◌-ℤ◌, ◌*ℤ◌, ltb_ℤ}
use asteria_firmware.Words.{magnitude, wrap_i32}
use asteria_firmware.Ms5607.Prom.{Prom}
use asteria_firmware.Ms5607.Compensation.{
  wrap_i64, Correction, dt, temp, off, sens, low, very_low, correction, pressure, compensated,
  compensate,
}
use asteria_firmware.Ms5607.Compensation.Bounded.{
  Near, near, add-Near, sub-Near, mul-Near, shr-Near, div-Near, pos-Near, word-Near, loosen,
  wrap_i32-fits,
}

-- The arithmetic of the integers.
abbrev pub exact : ℤ → ℤ
exact z = z

magnitude-between : (a b n : ℕ) → a ≤ n → b ≤ n → magnitude (pos a -ℤ pos b) ≤ n
unfolding ◌-ℤ◌
magnitude-between a b n h k = ground arith

dt-Near :
    (c5 d2 : ℕ) → c5 < 2 ^ 16 → d2 < 2 ^ 24 → Near (2 ^ 24) (dt wrap_i64 c5 d2) (dt exact c5 d2)
unfolding dt
dt-Near c5 d2 h k =
    let computed =
      sub-Near (pos-Near {a = 2 ^ 24} {n = d2} (omega arith))
        (word-Near {a = 2 ^ 24} {n = c5 * 2 ^ 8} (omega arith) (omega arith)) (omega arith) in
    near computed.same (magnitude-between d2 (c5 * 2 ^ 8) (2 ^ 24) (omega arith) (omega arith))

module _ (delta : ℤ) (small : magnitude delta ≤ 2 ^ 24) where
  delta-Near : Near (2 ^ 24) delta delta
  delta-Near = near refl small

  temp-Near :
      (c6 : ℕ) → c6 < 2 ^ 16 → Near (2 ^ 17 + 2000) (temp wrap_i64 c6 delta) (temp exact c6 delta)
  unfolding temp
  temp-Near c6 h =
      loosen
        (add-Near (pos-Near {a = 2000} (omega arith))
          (div-Near (2 ^ 23) (2 ^ 17)
            (mul-Near delta-Near (pos-Near {a = 2 ^ 16} (omega arith)) (omega arith)) (omega arith))
          (omega arith))
        (omega arith)

  off-Near :
      (c2 c4 : ℕ)
      → c2 < 2 ^ 16
      → c4 < 2 ^ 16
      → Near (2 ^ 35) (off wrap_i64 c2 c4 delta) (off exact c2 c4 delta)
  unfolding off
  off-Near c2 c4 h k =
      loosen
        (add-Near (word-Near {a = 2 ^ 33} (omega arith) (omega arith))
          (shr-Near (2 ^ 6) (2 ^ 34)
            (mul-Near (pos-Near {a = 2 ^ 16} (omega arith)) delta-Near (omega arith)) (omega arith))
          (omega arith))
        (omega arith)

  sens-Near :
      (c1 c3 : ℕ)
      → c1 < 2 ^ 16
      → c3 < 2 ^ 16
      → Near 12884901889 (sens wrap_i64 c1 c3 delta) (sens exact c1 c3 delta)
  unfolding sens
  sens-Near c1 c3 h k =
      loosen
        (add-Near (word-Near {a = 2 ^ 32} (omega arith) (omega arith))
          (shr-Near (2 ^ 7) (2 ^ 33)
            (mul-Near (pos-Near {a = 2 ^ 16} (omega arith)) delta-Near (omega arith)) (omega arith))
          (omega arith))
        (omega arith)

-- The bounds are those of `off2` and `sens2`.
record NearCorrection (o s : ℕ) (c e : Correction) : Type 0 where
  near_t2 : Near (2 ^ 18) c.t2 e.t2
  near_off2 : Near o c.off2 e.off2
  near_sens2 : Near s c.sens2 e.sens2

module _ (t delta : ℤ) (warm : magnitude t ≤ 2 ^ 17 + 2000) (small : magnitude delta ≤ 2 ^ 24) where
  t_low-Near : Near 135072 (wrap_i64 (t -ℤ pos 2000)) (t -ℤ pos 2000)
  t_low-Near = sub-Near (near refl warm) (pos-Near {a = 2000} (omega arith)) (omega arith)

  t_vlow-Near : Near 134572 (wrap_i64 (t +ℤ pos 1500)) (t +ℤ pos 1500)
  t_vlow-Near = add-Near (near refl warm) (pos-Near {a = 1500} (omega arith)) (omega arith)

  -- A multiple of a square.
  square-Near :
      {a : ℕ} {x x' : ℤ} (k : ℕ)
      → Near a x x'
      → k * a ≤ 2 ^ 62
      → k * a * a ≤ 2 ^ 62
      → Near (k * a * a) (wrap_i64 (wrap_i64 (pos k *ℤ x) *ℤ x)) (pos k *ℤ x' *ℤ x')
  square-Near {a} k p g h = mul-Near (mul-Near (pos-Near {a = k} {n = k} (omega arith)) p g) p h

  near_low : NearCorrection 69556947265 36488890368 (low wrap_i64 t delta) (low exact t delta)
  near_low = record {
    near_t2 =
        loosen
          (shr-Near (2 ^ 31) (2 ^ 17)
            (mul-Near (near {bound = 2 ^ 24} refl small) (near {bound = 2 ^ 24} refl small)
              (omega arith))
            (omega arith))
          (omega arith);
    near_off2 =
        loosen
          (shr-Near (2 ^ 4) 69556947264 (square-Near 61 t_low-Near (omega arith) (omega arith))
            (omega arith))
          (omega arith);
    near_sens2 = loosen (square-Near 2 t_low-Near (omega arith) (omega arith)) (omega arith);
  }

  near_very_low :
      (c e : Correction)
      → NearCorrection 69556947265 36488890368 c e
      → NearCorrection 341201295025 181365875840 (very_low wrap_i64 t c) (very_low exact t e)
  near_very_low c e n = record {
    near_t2 = n.near_t2;
    near_off2 =
        loosen
          (add-Near n.near_off2 (square-Near 15 t_vlow-Near (omega arith) (omega arith))
            (omega arith))
          (omega arith);
    near_sens2 =
        loosen
          (add-Near n.near_sens2 (square-Near 8 t_vlow-Near (omega arith) (omega arith))
            (omega arith))
          (omega arith);
  }

  near_wider :
      (c e : Correction)
      → NearCorrection 69556947265 36488890368 c e
      → NearCorrection 341201295025 181365875840 c e
  near_wider c e n = record {
    near_t2 = n.near_t2;
    near_off2 = loosen n.near_off2 (omega arith);
    near_sens2 = loosen n.near_sens2 (omega arith);
  }

  near_correction :
      NearCorrection 341201295025 181365875840
        (correction wrap_i64 t delta)
        (correction exact t delta)
  unfolding correction
  near_correction = elim (Bool-cases (ltb_ℤ t (pos 2000))) [
    | inr high ↦ rw high (record {
      near_t2 = pos-Near (omega arith);
      near_off2 = pos-Near (omega arith);
      near_sens2 = pos-Near (omega arith);
    })
    | inl cool ↦ elim (Bool-cases (ltb_ℤ t (negsuc 1499))) [
      | inl cold ↦ rw (cool, cold) (near_very_low _ _ near_low)
      | inr mild ↦ rw (cool, mild) (near_wider _ _ near_low)
    ]
  ]

pressure-Near :
    (d1 : ℕ) {o o' s s' : ℤ} {c e : Correction}
    → d1 < 2 ^ 24
    → Near (2 ^ 35) o o'
    → Near 12884901889 s s'
    → NearCorrection 341201295025 181365875840 c e
    → Near (2 ^ 30) (pressure wrap_i64 d1 o s c) (pressure exact d1 o' s' e)
unfolding pressure
pressure-Near d1 h p q n =
    loosen
      (shr-Near (2 ^ 15) (2 ^ 29)
        (sub-Near
          (shr-Near (2 ^ 21) (2 ^ 41)
            (mul-Near (pos-Near {a = 2 ^ 24} (omega arith)) (sub-Near q n.near_sens2 (omega arith))
              (omega arith))
            (omega arith))
          (sub-Near p n.near_off2 (omega arith)) (omega arith))
        (omega arith))
      (omega arith)

-- The words of the calibration memory that are coefficients have 16 bits.
pub record IsU16 (prom : Prom) : Type 0 where
  pub u1 : prom.c1 < 2 ^ 16
  pub u2 : prom.c2 < 2 ^ 16
  pub u3 : prom.c3 < 2 ^ 16
  pub u4 : prom.c4 < 2 ^ 16
  pub u5 : prom.c5 < 2 ^ 16
  pub u6 : prom.c6 < 2 ^ 16

-- For coefficients of 16 bits and readings of 24 bits, the compensation, which computes with 64-bit
-- integers and returns 32-bit integers, gives what the same formula gives on the integers: nothing
-- overflows and no cast loses anything.
pub compensate-exact :
    (prom : Prom) (d1 d2 : ℕ)
    → IsU16 prom
    → d1 < 2 ^ 24
    → d2 < 2 ^ 24
    → compensate prom d1 d2 ≡ compensated exact prom d1 d2
unfolding compensate compensated
compensate-exact prom d1 d2 u h k =
    let delta = dt-Near prom.c5 d2 u.u5 k in
    let t = temp-Near (dt exact prom.c5 d2) delta.small prom.c6 u.u6 in
    let c = near_correction (temp exact prom.c6 (dt exact prom.c5 d2)) _ t.small delta.small in
    let p =
      pressure-Near d1 h (off-Near (dt exact prom.c5 d2) delta.small prom.c2 prom.c4 u.u2 u.u4)
        (sens-Near (dt exact prom.c5 d2) delta.small prom.c1 prom.c3 u.u1 u.u3) c in
    let corrected = sub-Near (near refl t.small) c.near_t2 (omega arith) in
    rw (delta.same, t.same)
      (ap₂ (λ x y. (x, y)) (ap wrap_i32 p.same ∙ wrap_i32-fits _ p.small)
        (ap wrap_i32 corrected.same ∙ wrap_i32-fits _ (omega (arith, corrected.small))))
