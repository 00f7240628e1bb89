-- ===== src/Epos4/Device.antt =====
-- The error codes and the state words that the controller reports, and the driver's own errors.
pub mod Codes
use asteria_firmware.Prelude.{
  ℕ, ◌+◌, ◌*◌, ◌%◌, ◌^◌, bit_and, bit_or, Bool, true, false, ◌==◌, if◌then◌else◌,
}

pub data DeviceError : Type 0 where
  no_error toggle_error sdo_timeout client_server_specifier_error : DeviceError
  invalid_block_size invalid_sequence sdo_crc_error out_of_memory_error : DeviceError
  access_error write_only_error read_only_error object_not_exist_error : DeviceError
  pdo_mapping_error pdo_length_error general_parameter_error : DeviceError
  general_internal_incompatibility_error hardware_error service_parameter_error : DeviceError
  service_parameter_too_high service_parameter_too_low subindex_error : DeviceError
  value_range_error value_too_high value_too_low max_less_than_min_error : DeviceError
  general_error transfer_or_store_error local_control_error wrong_device_state_error : DeviceError
  can_id_error password_error illegal_command_error wrong_nmt_state_error : DeviceError
  unknown_error : ℕ → DeviceError

-- The match of `DeviceError::from`, on the assembled 32-bit code.
unfoldable pub of_code : ℕ → DeviceError
of_code v =
    if v == 0x0000_0000
    then no_error
    else if v == 0x0503_0000
    then toggle_error
    else if v == 0x0504_0000
    then sdo_timeout
    else if v == 0x0504_0001
    then client_server_specifier_error
    else if v == 0x0504_0002
    then invalid_block_size
    else if v == 0x0504_0003
    then invalid_sequence
    else if v == 0x0504_0004
    then sdo_crc_error
    else if v == 0x0504_0005
    then out_of_memory_error
    else if v == 0x0601_0000
    then access_error
    else if v == 0x0601_0001
    then write_only_error
    else if v == 0x0601_0002
    then read_only_error
    else if v == 0x0602_0000
    then object_not_exist_error
    else if v == 0x0604_0041
    then pdo_mapping_error
    else if v == 0x0604_0042
    then pdo_length_error
    else if v == 0x0604_0043
    then general_parameter_error
    else if v == 0x0604_0047
    then general_internal_incompatibility_error
    else if v == 0x0606_0000
    then hardware_error
    else if v == 0x0607_0010
    then service_parameter_error
    else if v == 0x0607_0012
    then service_parameter_too_high
    else if v == 0x0607_0013
    then service_parameter_too_low
    else if v == 0x0609_0011
    then subindex_error
    else if v == 0x0609_0030
    then value_range_error
    else if v == 0x0609_0031
    then value_too_high
    else if v == 0x0609_0032
    then value_too_low
    else if v == 0x0609_0036
    then max_less_than_min_error
    else if v == 0x0800_0000
    then general_error
    else if v == 0x0800_0020
    then transfer_or_store_error
    else if v == 0x0800_0021
    then local_control_error
    else if v == 0x0800_0022
    then wrong_device_state_error
    else if v == 0x0F00_FFB9
    then can_id_error
    else if v == 0x0F00_FFBE
    then password_error
    else if v == 0x0F00_FFBF
    then illegal_command_error
    else if v == 0x0F00_FFC0
    then wrong_nmt_state_error
    else unknown_error v

-- `DeviceError::from([u16; 2])`, low word first.
unfoldable pub from_words : ℕ → ℕ → DeviceError
from_words low high = of_code (bit_or low (high * 2 ^ 16))

-- The discriminants of `DeviceError`.
unfoldable pub code : DeviceError → ℕ
code no_error = 0x0000_0000
code toggle_error = 0x0503_0000
code sdo_timeout = 0x0504_0000
code client_server_specifier_error = 0x0504_0001
code invalid_block_size = 0x0504_0002
code invalid_sequence = 0x0504_0003
code sdo_crc_error = 0x0504_0004
code out_of_memory_error = 0x0504_0005
code access_error = 0x0601_0000
code write_only_error = 0x0601_0001
code read_only_error = 0x0601_0002
code object_not_exist_error = 0x0602_0000
code pdo_mapping_error = 0x0604_0041
code pdo_length_error = 0x0604_0042
code general_parameter_error = 0x0604_0043
code general_internal_incompatibility_error = 0x0604_0047
code hardware_error = 0x0606_0000
code service_parameter_error = 0x0607_0010
code service_parameter_too_high = 0x0607_0012
code service_parameter_too_low = 0x0607_0013
code subindex_error = 0x0609_0011
code value_range_error = 0x0609_0030
code value_too_high = 0x0609_0031
code value_too_low = 0x0609_0032
code max_less_than_min_error = 0x0609_0036
code general_error = 0x0800_0000
code transfer_or_store_error = 0x0800_0020
code local_control_error = 0x0800_0021
code wrong_device_state_error = 0x0800_0022
code can_id_error = 0x0F00_FFB9
code password_error = 0x0F00_FFBE
code illegal_command_error = 0x0F00_FFBF
code wrong_nmt_state_error = 0x0F00_FFC0
code (unknown_error v) = v

-- `device_error != DeviceError::NoError`.
abbrev pub is_error : DeviceError → Bool
is_error no_error = false
is_error _ = true

pub data EposStatus : Type 0 where
  not_ready_to_switch_on switch_on_disabled ready_to_switch_on switched_on : EposStatus
  operation_enabled quick_stop_active fault_reaction_active fault unknown_status : EposStatus

-- `EposStatus::from(u16)`.
unfoldable pub from_status_word : ℕ → EposStatus
from_status_word w =
    let state = bit_and w 0b0110_1111 in
    if state == 0b0000_0000
    then not_ready_to_switch_on
    else if state == 0b0100_0000
    then switch_on_disabled
    else if state == 0b0010_0001
    then ready_to_switch_on
    else if state == 0b0010_0011
    then switched_on
    else if state == 0b0010_0111
    then operation_enabled
    else if state == 0b0000_0111
    then quick_stop_active
    else if state == 0b0000_1111
    then fault_reaction_active
    else if state == 0b0000_1000
    then fault
    else unknown_status

-- `PartialEq` of `EposStatus` against `Fault`.
abbrev pub is_fault : EposStatus → Bool
is_fault fault = true
is_fault _ = false

-- The error type of the driver; `E` is the error of the serial port.
pub data Epos4Error (E : Type 0) : Type 0 where
  interface : E → Epos4Error E
  framing : Epos4Error E
  device_in_fault_state : Epos4Error E
  device : DeviceError → Epos4Error E
  timeout : Epos4Error E
