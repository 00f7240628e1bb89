-- ===== src/Rsbl/Motion.antt =====
-- The operations of the servo driver: moves in steps, absolute moves with a tracked position, and
-- the sensor data.
pub mod Register
pub mod Keeps
pub mod Moves
use asteria_firmware.Prelude.{
  ℕ, zero, suc, ◌+◌, ◌-◌, ◌*◌, ◌/◌, ◌%◌, ◌^◌, bit_or, Bool, true, false, List, [], ◌∷◌, ◌++◌,
  Option, none, some, ltb, ◌==◌, if◌then◌else◌, get_or,
}
use asteria_firmware.Prelude.Int.{ℤ, pos, negsuc, ◌-ℤ◌, ltb_ℤ}
use asteria_firmware.Words.{as_u32, wrap_i32, wrap_i16, magnitude, neg, is_negative}
use asteria_firmware.Rsbl.Bus.{
  RsblError, Rsbl, Result, ok, err, M, ◌>>=◌, ◌>>◌, pure, fail, clear_ringbuffer, invalid_angle,
  timeout_error,
}
use asteria_firmware.Rsbl.Frame.{write_data, read_data, target_location_h, current_location_h}

pub data Side : Type 0 where
  left right : Side

-- `Side::id`, with LEFT and RIGHT.
abbrev pub side_id : Side → ℕ
side_id left = 2
side_id right = 3

abbrev pub tracked_pos : Side → Rsbl → ℤ
tracked_pos left s = s.left_pos
tracked_pos right s = s.right_pos

-- `*self.pos_mut(side) = position`.
abbrev pub set_pos : Side → ℤ → Rsbl → Rsbl
set_pos left p s = record s { left_pos = p }
set_pos right p s = record s { right_pos = p }

pub record RsblData : Type 0 where
  pub angle : ℤ
  pub speed : ℤ
  pub load : ℕ
  pub voltage : ℕ
  pub temperature : ℕ
  pub moving : Bool
  pub current : ℕ

-- The register value of a step count: bit 15 is the direction.
unfoldable pub angle_reg : ℤ → ℕ
angle_reg angle =
    if is_negative angle
    then (2 ^ 15 + as_u32 (wrap_i16 (neg angle)) % 2 ^ 16) % 2 ^ 16
    else as_u32 angle % 2 ^ 16

-- `move_steps`. `angle.abs()` wraps at `i16::MIN`.
unfoldable pub move_steps : ℕ → ℤ → ℕ → M (Unit {0})
move_steps id angle speed =
    let reg = angle_reg angle in
    let bytes = reg % 2 ^ 8 ∷ reg / 2 ^ 8 ∷ 0 ∷ 0 ∷ speed % 2 ^ 8 ∷ speed / 2 ^ 8 ∷ [] in
    if ltb_ℤ (pos 32766) (wrap_i16 (pos (magnitude angle)))
    then fail invalid_angle
    else write_data id target_location_h bytes

-- A register of direction bit and magnitude, as `read_sensor_data` reads angle and speed.
unfoldable pub signed_register : ℕ → ℤ
signed_register reg = if reg / 2 ^ 15 == 1 then neg (pos (reg - 2 ^ 15)) else pos reg

-- `(buf[i + 1] as u16) << 8 | buf[i] as u16`.
unfoldable pub word_at : List ℕ → ℕ → ℕ
word_at buf i = bit_or (get_or buf (i + 1) 0 * 2 ^ 8 % 2 ^ 16) (get_or buf i 0)

unfoldable pub sensor_data : List ℕ → RsblData
sensor_data buf = record {
  angle = signed_register (word_at buf 0);
  speed = signed_register (word_at buf 2);
  load = word_at buf 4;
  voltage = get_or buf 6 0;
  temperature = get_or buf 7 0;
  moving = ltb 0 (get_or buf 10 0);
  current = word_at buf 11;
}

-- The match of `read_sensor_data`: a timeout means that no servo is connected.
unfoldable pub sensor_result : Result (List ℕ) → Result (Option RsblData)
sensor_result (ok buf s) = ok (some (sensor_data buf)) s
sensor_result (err timeout_error s) = ok none s
sensor_result (err e s) = err e s

unfoldable pub read_sensor_data : ℕ → M (Option RsblData)
read_sensor_data id s = sensor_result (read_data id current_location_h 13 s)

unfoldable pub with_angle_from : ℤ → Option RsblData → Option RsblData
with_angle_from tracked none = none
with_angle_from tracked (some data') =
    some (record data' { angle = wrap_i32 (tracked -ℤ data'.angle) })

unfoldable pub read_steering_data : Side → M (Option RsblData)
read_steering_data side s =
    (do
      reading ← read_sensor_data (side_id side)
      pure (with_angle_from (tracked_pos side s) reading))
      s

-- A move whose failure is remembered and does not stop what follows.
abbrev pub outcome : Option RsblError → Result (Unit {0}) → Option RsblError × Rsbl
outcome error (ok _ s) = (error, s)
outcome error (err e s) = (some e, s)

unfoldable pub attempt : M (Unit {0}) → Option RsblError × Rsbl → Option RsblError × Rsbl
attempt m (error, s) = outcome error (m s)

abbrev pub full_speed : ℕ
full_speed = 0xFFFE

-- The largest move of one command, in the direction of `steps`.
abbrev pub chunk : ℤ → ℤ
chunk steps = if is_negative steps then negsuc 32765 else pos 32766

-- The loop of `move_absolute` and the move behind it, on fuel.
unfoldable pub move_loop : ℕ → ℕ → ℤ → Option RsblError × Rsbl → Option RsblError × Rsbl
move_loop zero id steps p = attempt (move_steps id (wrap_i16 steps) full_speed) p
move_loop (suc fuel) id steps p = elim (ltb_ℤ (pos 32766) (wrap_i32 (pos (magnitude steps)))) [
  | true ↦
      move_loop fuel id (steps -ℤ chunk steps) (attempt (move_steps id (chunk steps) full_speed) p)
  | false ↦ attempt (move_steps id (wrap_i16 steps) full_speed) p
]

-- The position is tracked whether or not a move failed; the last error is returned.
abbrev pub finish : Side → ℤ → Option RsblError × Rsbl → Result (Unit {0})
finish side target (none, s) = ok tt (set_pos side target s)
finish side target (some e, s) = err e (set_pos side target s)

-- Each round takes 32766 off the distance, so the fuel is enough.
unfoldable pub move_absolute : Side → ℤ → M (Unit {0})
move_absolute side target s =
    let steps = wrap_i32 (target -ℤ tracked_pos side s) in
    finish side target (move_loop (suc (magnitude steps / 32766)) (side_id side) steps (none, s))

unfoldable pub steer_parachutes : ℤ → ℤ → M (Unit {0})
steer_parachutes left_target right_target = do
  move_absolute left left_target
  move_absolute right right_target
  pure tt

abbrev pub started : Option RsblError → M (Unit {0})
started none s = ok tt s
started (some e) s = err e s

-- `startup_sequence`. What `reset` does to the port is not part of the repository.
unfoldable pub startup_sequence : (Rsbl → Rsbl) → M (Unit {0})
startup_sequence reset s =
    let p = attempt clear_ringbuffer (none, reset s) in
    let (error, t) =
      attempt (move_steps (side_id right) (pos 0) full_speed)
        (attempt (move_steps (side_id left) (pos 0) full_speed) (p.0, reset p.1)) in
    started error t
