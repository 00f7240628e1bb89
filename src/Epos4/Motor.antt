-- ===== src/Epos4/Motor.antt =====
-- The operations of the driver on the motor: configuration, the CiA 402 state machine, the modes of
-- operation, homing and data acquisition.
pub mod Script
pub mod Sequences
pub mod Fault
use asteria_firmware.Prelude.{
  ℕ, suc, ◌+◌, ◌-◌, ◌*◌, ◌/◌, ◌%◌, ◌^◌, bit_and, bit_or, Bool, true, false, ◌==◌, ◌!=◌,
  if◌then◌else◌,
}
use asteria_firmware.Prelude.Int.{ℤ, pos, negsuc}
use asteria_firmware.Words.{as_u32, as_i32, as_i16}
use asteria_firmware.Epos4.Device.{EposStatus, from_status_word, is_fault, device_in_fault_state}
use asteria_firmware.Epos4.Link.{M, ◌>>=◌, ◌>>◌, pure, fail_if}
use asteria_firmware.Epos4.Dictionary.{
  MotorType, motor_type_code, HomingMethod, homing_method_code, HomingStatus, control_word,
  status_word, modes_of_operation, position_actual_value, velocity_actual_value, target_position,
  profile_velocity, profile_acceleration, profile_deceleration, homing_method, homing_speeds,
  homing_acceleration, target_velocity, motor_data, home_offset_move_distance,
  current_actual_values, program_control, motor_type_object,
}
use asteria_firmware.Epos4.Object.{write_object, read_object}

module _ {E : Type 0} where
  pub get_status : M E EposStatus
  get_status = do answer ← read_object status_word 0x00; pure (from_status_word (answer % 2 ^ 16))

  pub get_current_position : M E ℤ
  get_current_position = do val ← read_object position_actual_value 0x00; pure (as_i32 val)

  pub get_current_velocity : M E ℤ
  get_current_velocity = do val ← read_object velocity_actual_value 0x00; pure (as_i32 val)

  pub target_reached : M E Bool
  target_reached = do
    word ← read_object status_word 0x00
    pure (bit_and (word % 2 ^ 16) (2 ^ 10) == 2 ^ 10)

  pub get_current_avg_raw : M E ℤ
  get_current_avg_raw = do val ← read_object current_actual_values 0x01; pure (as_i16 val)

  pub get_homing_status : M E HomingStatus
  get_homing_status = do
    word ← read_object status_word 0x00
    pure (record {
      attained = bit_and (word % 2 ^ 16) (2 ^ 12) != 0;
      error = bit_and (word % 2 ^ 16) (2 ^ 13) != 0;
    })

  pub set_current_position_zero : M E (Unit {0})
  set_current_position_zero = do
    cur ← get_current_position
    write_object 0x30B0 0x00 (as_u32 cur)
    pure tt

  pub set_motor_type : MotorType → M E (Unit {0})
  set_motor_type motor_type = write_object motor_type_object 0x00 (motor_type_code motor_type)

  pub set_ec_motor_params : ℕ → ℕ → ℕ → ℕ → M E (Unit {0})
  set_ec_motor_params nominal_current max_output_current thermal_time_constant pole_pairs = do
    write_object motor_data 0x01 nominal_current
    write_object motor_data 0x02 max_output_current
    write_object motor_data 0x04 thermal_time_constant
    write_object motor_data 0x05 pole_pairs
    pure tt

  pub shutdown : M E (Unit {0})
  shutdown = do write_object control_word 0x00 0x0006; pure tt

  pub enable : M E (Unit {0})
  enable = do
    shutdown
    write_object control_word 0x00 0x0007
    write_object control_word 0x00 0x000F
    pure tt

  pub quick_stop : M E (Unit {0})
  quick_stop = do write_object control_word 0x00 0x000B; pure tt

  pub reset_node : M E (Unit {0})
  reset_node = write_object program_control 0x01 0x02

  -- The part of `clear_fault` behind the early return.
  pub reset_fault : M E (Unit {0})
  reset_fault = do
    write_object control_word 0x00 0x0080
    write_object control_word 0x00 0x0000
    status ← get_status
    fail_if (is_fault status) device_in_fault_state
    pure tt

  pub clear_fault : M E (Unit {0})
  clear_fault = do status ← get_status; if is_fault status then reset_fault else pure tt

  pub set_ppm_mode : M E (Unit {0})
  set_ppm_mode = write_object modes_of_operation 0x00 1

  pub set_homing_mode : M E (Unit {0})
  set_homing_mode = write_object modes_of_operation 0x00 6

  pub set_ppm_profile : ℕ → ℕ → ℕ → M E (Unit {0})
  set_ppm_profile velocity acceleration deceleration = do
    write_object profile_velocity 0x00 velocity
    write_object profile_acceleration 0x00 acceleration
    write_object profile_deceleration 0x00 deceleration
    pure tt

  pub move_to_position : ℤ → Bool → M E (Unit {0})
  move_to_position target_pos immediate =
      let enable_op_word : ℕ = 0x000F in
      let start_move_word =
        if immediate
        then bit_or (bit_or enable_op_word (2 ^ 4)) (2 ^ 5)
        else bit_or enable_op_word (2 ^ 4) in
      do
        write_object target_position 0x00 (as_u32 target_pos)
        write_object control_word 0x00 enable_op_word
        write_object control_word 0x00 start_move_word
        write_object control_word 0x00 enable_op_word
        pure tt

  pub set_pvm_mode : M E (Unit {0})
  set_pvm_mode = write_object modes_of_operation 0x00 3

  pub move_with_velocity : ℤ → M E (Unit {0})
  move_with_velocity velocity = write_object target_velocity 0x00 (as_u32 velocity)

  pub halt_velocity_movement : M E (Unit {0})
  halt_velocity_movement = move_with_velocity (pos 0)

  pub set_homing_params : ℕ → ℕ → ℕ → ℤ → M E (Unit {0})
  set_homing_params switch_search_speed index_search_speed acceleration offset = do
    write_object homing_speeds 0x01 switch_search_speed
    write_object homing_speeds 0x02 index_search_speed
    write_object homing_acceleration 0x00 acceleration
    write_object home_offset_move_distance 0x00 (as_u32 offset)
    pure tt

  pub find_home : HomingMethod → M E (Unit {0})
  find_home method = do
    write_object homing_method 0x00 (as_u32 (homing_method_code method))
    write_object control_word 0x00 (bit_or 0x000F (2 ^ 4))
