-- ===== src/Recovery/Watchdog.antt =====
-- The watchdog of the steering loop (fw-recovery-board/app/src/watchdog.rs). Each operation takes the
-- time that it reads from the clock, in ticks; the clock does not run backwards.
use asteria_firmware.Prelude.{
  ℕ, ◌-◌, ◌<◌, ◌≡◌, refl, Bool, true, false, List, [], ◌∷◌, ltb, if◌then◌else◌, arith, ◌↔◌,
}

pub record Watchdog : Type 0 where
  pub active : Bool
  pub last_seen : ℕ
  pub duration : ℕ
  pub expired : Bool

unfoldable pub new : ℕ → ℕ → Watchdog
new now duration = record { active = false; last_seen = now; duration = duration; expired = false }

unfoldable pub start : ℕ → Watchdog → Watchdog
start now w = if w.active then w else record w { active = true; last_seen = now }

unfoldable pub check : ℕ → Watchdog → Bool × Watchdog
check now w =
    if w.active
    then (if w.expired
        then (false, w)
        else if ltb w.duration (now - w.last_seen)
        then (false, record w { expired = true })
        else (true, w))
    else (true, w)

unfoldable pub update : ℕ → Watchdog → Watchdog
update now w = if w.active then record w { last_seen = now } else w

abbrev pub IsExpired : Watchdog → Type 0
IsExpired w = (w.active ≡ true) × (w.expired ≡ true)

pub data Call : Type 0 where
  starting checking updating : ℕ → Call

abbrev pub called : Call → Watchdog → Watchdog
called (starting now) w = start now w
called (checking now) w = (check now w).1
called (updating now) w = update now w

abbrev pub calls : List Call → Watchdog → Watchdog
calls [] w = w
calls (c ∷ rest) w = calls rest (called c w)

pub check-IsExpired : (now : ℕ) (w : Watchdog) → IsExpired w → check now w ≡ (false, w)
unfolding check
check-IsExpired now w h = rw (h.0, h.1) refl

called-IsExpired : (c : Call) (w : Watchdog) → IsExpired w → IsExpired (called c w)
unfolding start update
called-IsExpired (starting now) w h = rw h.0 (refl, h.1)
called-IsExpired (checking now) w h = rw (check-IsExpired now w h, called) h
called-IsExpired (updating now) w h = rw h.0 (refl, h.1)

-- A watchdog that has expired refuses every check, after any further calls of its operations.
calls-IsExpired :
    (cs : List Call) (now : ℕ) (w : Watchdog) → IsExpired w → (check now (calls cs w)).0 ≡ false
calls-IsExpired [] now w h = rw (check-IsExpired now w h) refl
calls-IsExpired (c ∷ rest) now w h = calls-IsExpired rest now (called c w) (called-IsExpired c w h)

-- A running watchdog that was not fed for longer than its duration is refused at the check, and is
-- expired behind it.
pub check-late :
    (now : ℕ) (w : Watchdog)
    → w.active ≡ true
    → w.duration < now - w.last_seen
    → ((check now w).0 ≡ false) × IsExpired (check now w).1
unfolding check
check-late now w h late = ground arith

-- A check is refused exactly when the watchdog is behind it expired.
pub check_lem : (now : ℕ) (w : Watchdog) → ((check now w).0 ≡ false) ↔ IsExpired (check now w).1
unfolding check
check_lem now w = ground arith
