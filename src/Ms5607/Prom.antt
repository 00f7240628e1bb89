-- ===== src/Ms5607/Prom.antt =====
-- The calibration memory of the barometer.
use asteria_firmware.Prelude.{ℕ, ◌==◌, if◌then◌else◌}

-- `prom`: the words of the calibration memory.
pub record Prom : Type 0 where
  pub c0 : ℕ
  pub c1 : ℕ
  pub c2 : ℕ
  pub c3 : ℕ
  pub c4 : ℕ
  pub c5 : ℕ
  pub c6 : ℕ
  pub c7 : ℕ

-- `prom[i]` is replaced by what a function makes of it.
abbrev pub update_word : ℕ → (ℕ → ℕ) → Prom → Prom
update_word i f p =
    if i == 0
    then record p { c0 = f p.c0 }
    else if i == 1
    then record p { c1 = f p.c1 }
    else if i == 2
    then record p { c2 = f p.c2 }
    else if i == 3
    then record p { c3 = f p.c3 }
    else if i == 4
    then record p { c4 = f p.c4 }
    else if i == 5
    then record p { c5 = f p.c5 }
    else if i == 6
    then record p { c6 = f p.c6 }
    else if i == 7
    then record p { c7 = f p.c7 }
    else p

-- `prom[i]`.
abbrev pub prom_word : Prom → ℕ → ℕ
prom_word p i =
    if i == 0
    then p.c0
    else if i == 1
    then p.c1
    else if i == 2
    then p.c2
    else if i == 3
    then p.c3
    else if i == 4
    then p.c4
    else if i == 5
    then p.c5
    else if i == 6
    then p.c6
    else p.c7
