-- ===== src/Lox/Valve.antt =====
-- The start of the valve's motor and its homing (fw-lox-valve-control-board/app/src/valve.rs), and
-- what main.rs makes of it.
pub mod Flags
pub mod Offset
pub mod Ready
pub mod Started
use asteria_firmware.Prelude.{ℕ, zero, suc, ◌+◌, Bool, true, if◌then◌else◌}
use asteria_firmware.Prelude.Int.{ℤ, pos, ◌+ℤ◌, ◌-ℤ◌}
use asteria_firmware.Words.{wrap_i32}
use asteria_firmware.Epos4.Device.{
  EposStatus, not_ready_to_switch_on, switch_on_disabled, ready_to_switch_on, switched_on,
  operation_enabled, quick_stop_active, fault_reaction_active, fault, unknown_status,
}
use asteria_firmware.Epos4.Motor
use asteria_firmware.Epos4.Motor.{
  get_status, reset_node, set_ppm_profile, set_ppm_mode, get_current_position, move_to_position,
}
use asteria_firmware.Lox.Status.{
  set_status, clear_status, initializing, ready, motor_init_failed, motor_device_fault,
}
use asteria_firmware.Lox.Task.{
  Board, Outcome, returned, failed, waiting, behind, Task, bind_outcome, ◌>>=◌, ◌>>◌, with_status,
  epos_op_with_timeout, direct,
}

-- `rel_to_abs` and `abs_to_rel`, with the home offset.
unfoldable pub rel_to_abs : ℤ → ℤ → ℤ
rel_to_abs home rel_counts = wrap_i32 (rel_counts +ℤ home)

unfoldable pub abs_to_rel : ℤ → ℤ → ℤ
abs_to_rel home abs_counts = wrap_i32 (abs_counts -ℤ home)

-- The three branches of the match on a status.
pub data Readiness : Type 0 where
  motor_ready motor_faulty not_yet : Readiness

unfoldable pub readiness : EposStatus → Readiness
readiness switch_on_disabled = motor_ready
readiness ready_to_switch_on = motor_ready
readiness switched_on = motor_ready
readiness operation_enabled = motor_ready
readiness fault = motor_faulty
readiness not_ready_to_switch_on = not_yet
readiness quick_stop_active = not_yet
readiness fault_reaction_active = not_yet
readiness unknown_status = not_yet

module _ {E : Type 0} where
  -- `let _ = epos_op_with_timeout("Reset node", ..)`.
  abbrev pub reset_then : Task E (Unit {0}) → Task E (Unit {0})
  reset_then again b = again (behind (epos_op_with_timeout reset_node b))

  unfoldable pub judge : Readiness → Task E (Unit {0}) → Task E (Unit {0})
  judge motor_ready again b = returned tt (with_status (clear_status motor_device_fault b.status) b)
  judge motor_faulty again b =
      reset_then again (with_status (set_status motor_device_fault b.status) b)
  judge not_yet again b = again b

  -- One attempt of `wait_for_motor_ready`, with the attempts behind it.
  unfoldable pub attempted : Task E (Unit {0}) → Outcome E EposStatus → Outcome E (Unit {0})
  attempted again (returned s b) = judge (readiness s) again b
  attempted again (failed e b) = reset_then again b
  attempted again (waiting b) = waiting b

  -- The loop of `wait_for_motor_ready`, for a number of attempts.
  unfoldable pub wait_for_motor_ready : ℕ → Task E (Unit {0})
  wait_for_motor_ready zero b = waiting b
  wait_for_motor_ready (suc attempts) b =
      attempted (wait_for_motor_ready attempts) (epos_op_with_timeout get_status b)

  abbrev polled : Board E → Board E
  polled b = record b { polls = b.polls + 1 }

  -- A step of the loop of `find_and_calibrate_home`: 750 counts back.
  unfoldable pub step_back : Task E (Unit {0})
  step_back = do
    cur_abs ← direct get_current_position
    direct (move_to_position (wrap_i32 (cur_abs -ℤ pos 750)) true)

  -- That loop, for a number of looks at the limit switch.
  unfoldable pub approach : ℕ → Task E (Unit {0})
  approach zero b = waiting b
  approach (suc looks) b =
      let on = (step_back >> approach looks) (polled b) in
      if b.switch_low b.polls then returned tt (polled b) else on

  unfoldable pub store_home : ℤ → Task E (Unit {0})
  store_home position b = returned tt (record b { home = position })

  -- The part of `find_and_calibrate_home` behind its loop.
  unfoldable pub calibrate : Task E (Unit {0})
  calibrate = do
    cur_abs ← direct get_current_position
    direct (move_to_position cur_abs true)
    store_home cur_abs

  unfoldable pub find_and_calibrate_home : ℕ → Task E (Unit {0})
  find_and_calibrate_home looks = do approach looks; calibrate

  -- The branch for an error of `wait_for_motor_ready`.
  unfoldable pub note_failure : Outcome E (Unit {0}) → Outcome E (Unit {0})
  note_failure (returned a b) = returned a b
  note_failure (failed e b) = failed e (with_status (set_status motor_init_failed b.status) b)
  note_failure (waiting b) = waiting b

  unfoldable pub wait_or_note : ℕ → Task E (Unit {0})
  wait_or_note attempts b = note_failure (wait_for_motor_ready attempts b)

  unfoldable pub init_lox_valve_motor : ℕ → ℕ → Task E (Unit {0})
  init_lox_valve_motor attempts looks = do
    wait_or_note attempts
    epos_op_with_timeout (set_ppm_profile 7142 5000 5000)
    epos_op_with_timeout set_ppm_mode
    epos_op_with_timeout Motor.enable
    find_and_calibrate_home looks

  -- What main.rs does with the outcome.
  unfoldable pub conclude_start : Outcome E (Unit {0}) → Outcome E (Unit {0})
  conclude_start (returned a b) =
      returned a (with_status (set_status ready (clear_status initializing b.status)) b)
  conclude_start (failed e b) = failed e (with_status (clear_status initializing b.status) b)
  conclude_start (waiting b) = waiting b

  -- The status and the motor from the first line of `main` on.
  unfoldable pub start_valve : ℕ → ℕ → Task E (Unit {0})
  start_valve attempts looks b =
      conclude_start
        (init_lox_valve_motor attempts looks (with_status (set_status initializing b.status) b))
