-- ===== src/Recovery/Steering.antt =====
-- `steering_task` (fw-recovery-board/app/src/actuator_control.rs): one round of its loop as a function
-- of the task's state and of what the round meets.
pub mod Kept
pub mod Expired
use asteria_firmware.Prelude.{
  ℕ, ◌-◌, Bool, true, false, List, [], ◌∷◌, ◌++◌, Option, none, some, leb, if◌then◌else◌, ◌&&◌,
}
use asteria_firmware.Prelude.Int.{ℤ, pos, negsuc}
use asteria_firmware.Words.{wrap_i32, neg}
use asteria_firmware.Rsbl.Bus.{Rsbl, Result, ok, err, final}
use asteria_firmware.Rsbl.Motion.{
  Side, left, right, RsblData, steer_parachutes, read_steering_data, startup_sequence,
}
use asteria_firmware.Recovery.Watchdog
use asteria_firmware.Recovery.Watchdog.{Watchdog}

abbrev pub safety_spiral_pos_left : ℤ
safety_spiral_pos_left = negsuc 2456

abbrev pub safety_spiral_pos_right : ℤ
safety_spiral_pos_right = pos 3227

-- The two variants of the external `SteeringStatus` that the task names.
pub data SteeringStatus : Type 0 where
  responsive unresponsive : SteeringStatus

-- What the task sends: `WatchdogState::Active` and `::Expired`, the positions and the statuses of the
-- motors, and the default statuses.
pub data Sent : Type 0 where
  watchdog_active watchdog_expired : Sent
  positions : Option (ℤ × ℤ) → Sent
  statuses : SteeringStatus → SteeringStatus → Sent
  default_statuses : Sent

-- The drivers and the local variables of the task; `targets` is the message that the receiver has not
-- handed out yet.
pub record Steering : Type 0 where
  pub rsbl : Rsbl
  pub watchdog : Watchdog
  pub last : ℕ
  pub active : Bool
  pub is_watched : Bool
  pub safety_spiral_active : Bool
  pub targets : Option (ℤ × ℤ)
  pub sent : List Sent

-- What one round meets: the power flag, the message that came in since the last round, what
-- `RsblServo::reset` does to the driver, and the clock at each place that reads it.
pub record Round : Type 0 where
  pub powered : Bool
  pub message : Option (ℤ × ℤ)
  pub reset : Rsbl → Rsbl
  pub checked_at : ℕ
  pub started_at : ℕ
  pub updated_at : ℕ
  pub compared_at : ℕ
  pub reported_at : ℕ
  -- `Duration::from_millis(100)`, in ticks.
  pub report_interval : ℕ

-- The watch channel keeps the latest message.
abbrev pub received : Option (ℤ × ℤ) → Steering → Steering
received none s = s
received (some message) s = record s { targets = some message }

abbrev pub send : Sent → Steering → Steering
send m s = record s { sent = s.sent ++ m ∷ [] }

unfoldable pub start_up : Round → Steering → Steering
start_up r s =
    if s.active
    then s
    else record s { rsbl = final (startup_sequence r.reset s.rsbl); active = true }

abbrev pub watch : Round → Steering → Steering
watch r s =
    if s.is_watched
    then s
    else send watchdog_active
        (record s { watchdog = Watchdog.start r.started_at s.watchdog; is_watched = true })

abbrev pub pet : Round → Steering → Steering
pet r s = record s { watchdog = Watchdog.update r.updated_at s.watchdog }

abbrev pub steer : ℤ × ℤ → Steering → Steering
steer (l, r) s = record s {
  rsbl = final (steer_parachutes (wrap_i32 (neg l)) (wrap_i32 (neg r)) s.rsbl);
}

abbrev pub follow_message : Option (ℤ × ℤ) → Round → Steering → Steering
follow_message none r s = s
follow_message (some target) r s = steer target (pet r (watch r (record s { targets = none })))

-- The branch in which the watchdog is alive.
unfoldable pub follow : Round → Steering → Steering
follow r s = follow_message s.targets r s

abbrev pub spiralled : Steering → Result (Unit {0}) → Steering
spiralled s (ok _ t) = record s { rsbl = t; safety_spiral_active = true }
spiralled s (err e t) = record s { rsbl = t }

-- The branch in which it has expired.
unfoldable pub spiral : Steering → Steering
spiral s =
    if s.safety_spiral_active
    then s
    else spiralled (send watchdog_expired s)
        (steer_parachutes safety_spiral_pos_left safety_spiral_pos_right s.rsbl)

abbrev pub side_reading : Result (Option RsblData) → (ℤ × SteeringStatus) × Rsbl
side_reading (ok (some data') t) = ((wrap_i32 (neg data'.angle), responsive), t)
side_reading (ok none t) = ((pos 0, unresponsive), t)
side_reading (err e t) = ((pos 0, unresponsive), t)

unfoldable pub read_side : Side → Rsbl → (ℤ × SteeringStatus) × Rsbl
read_side side t = side_reading (read_steering_data side t)

abbrev pub both : ℤ × SteeringStatus → ℤ × SteeringStatus → Option (ℤ × ℤ)
both (l, responsive) (r, responsive) = some (l, r)
both (l, responsive) (r, unresponsive) = none
both (l, unresponsive) (r, status) = none

-- The readout, at most every 100 ms.
unfoldable pub report : Round → Steering → Steering
report r s =
    let l = read_side left s.rsbl in
    let read = read_side right l.1 in
    if leb r.report_interval (r.compared_at - s.last)
    then send (statuses l.0.1 read.0.1)
        (send (positions (both l.0 read.0)) (record s { rsbl = read.1; last = r.reported_at }))
    else s

abbrev pub guarded : Round → Bool × Watchdog → Steering → Steering
guarded r (true, w) s = follow r (record s { watchdog = w })
guarded r (false, w) s = spiral (record s { watchdog = w })

abbrev pub unpowered : Steering → Steering
unpowered s =
    send default_statuses
      (record s { active = false; safety_spiral_active = false; is_watched = false })

abbrev pub powered_round : Round → Steering → Steering
powered_round r s =
    report r (guarded r (Watchdog.check r.checked_at (start_up r s).watchdog) (start_up r s))

-- The body of the loop.
unfoldable pub steering_round : Round → Steering → Steering
steering_round r before =
    let s = received r.message before in if r.powered then powered_round r s else unpowered s

abbrev pub rounds : List Round → Steering → Steering
rounds [] s = s
rounds (r ∷ rest) s = rounds rest (steering_round r s)
