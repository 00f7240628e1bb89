-- ===== src/Epos4/Dictionary.antt =====
-- The object dictionary of the controller as far as the driver uses it, and the enumerations whose
-- codes go into it.
use asteria_firmware.Prelude.{ℕ, Bool}
use asteria_firmware.Prelude.Int.{ℤ, pos, negsuc}

pub data MotorType : Type 0 where
  brushed_dc_motor ec_motor_sinus_commutated ec_motor_block_commutated : MotorType

-- `motor_type as u32`.
unfoldable pub motor_type_code : MotorType → ℕ
motor_type_code brushed_dc_motor = 1
motor_type_code ec_motor_sinus_commutated = 10
motor_type_code ec_motor_block_commutated = 11

pub data HomingMethod : Type 0 where
  current_threshold_negative_speed current_threshold_positive_speed : HomingMethod
  current_threshold_negative_speed_and_index : HomingMethod
  current_threshold_positive_speed_and_index : HomingMethod
  negative_limit_switch_and_index positive_limit_switch_and_index : HomingMethod
  home_switch_positive_speed_and_index home_switch_negative_speed_and_index : HomingMethod
  negative_limit_switch positive_limit_switch : HomingMethod
  home_switch_positive_speed home_switch_negative_speed : HomingMethod
  index_negative_speed index_positive_speed current_position : HomingMethod

-- The discriminants, as `i8`.
unfoldable pub homing_method_code : HomingMethod → ℤ
homing_method_code current_threshold_negative_speed = negsuc 3
homing_method_code current_threshold_positive_speed = negsuc 2
homing_method_code current_threshold_negative_speed_and_index = negsuc 1
homing_method_code current_threshold_positive_speed_and_index = negsuc 0
homing_method_code negative_limit_switch_and_index = pos 1
homing_method_code positive_limit_switch_and_index = pos 2
homing_method_code home_switch_positive_speed_and_index = pos 7
homing_method_code home_switch_negative_speed_and_index = pos 11
homing_method_code negative_limit_switch = pos 17
homing_method_code positive_limit_switch = pos 18
homing_method_code home_switch_positive_speed = pos 23
homing_method_code home_switch_negative_speed = pos 27
homing_method_code index_negative_speed = pos 33
homing_method_code index_positive_speed = pos 34
homing_method_code current_position = pos 37

pub record HomingStatus : Type 0 where
  pub attained : Bool
  pub error : Bool

-- The object dictionary indices.
abbrev pub control_word : ℕ
control_word = 0x6040

abbrev pub status_word : ℕ
status_word = 0x6041

abbrev pub modes_of_operation : ℕ
modes_of_operation = 0x6060

abbrev pub position_actual_value : ℕ
position_actual_value = 0x6064

abbrev pub velocity_actual_value : ℕ
velocity_actual_value = 0x606C

abbrev pub target_position : ℕ
target_position = 0x607A

abbrev pub profile_velocity : ℕ
profile_velocity = 0x6081

abbrev pub profile_acceleration : ℕ
profile_acceleration = 0x6083

abbrev pub profile_deceleration : ℕ
profile_deceleration = 0x6084

abbrev pub homing_method : ℕ
homing_method = 0x6098

abbrev pub homing_speeds : ℕ
homing_speeds = 0x6099

abbrev pub homing_acceleration : ℕ
homing_acceleration = 0x609A

abbrev pub target_velocity : ℕ
target_velocity = 0x60FF

abbrev pub motor_data : ℕ
motor_data = 0x3001

abbrev pub home_offset_move_distance : ℕ
home_offset_move_distance = 0x30B1

abbrev pub current_actual_values : ℕ
current_actual_values = 0x30D1

abbrev pub program_control : ℕ
program_control = 0x1F51

abbrev pub motor_type_object : ℕ
motor_type_object = 0x6402
