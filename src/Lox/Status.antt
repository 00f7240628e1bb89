-- ===== src/Lox/Status.antt =====
-- The device status (fw-lox-valve-control-board/app/src/modbus_server.rs): a register of 16 flags.
use asteria_firmware.Prelude.{ℕ, ◌-◌, ◌^◌, bit_and, bit_or}

-- The flags of `DeviceStatus`.
abbrev pub initializing : ℕ
initializing = 2 ^ 0

abbrev pub ready : ℕ
ready = 2 ^ 1

abbrev pub motor_init_failed : ℕ
motor_init_failed = 2 ^ 2

abbrev pub motor_comm_error : ℕ
motor_comm_error = 2 ^ 3

abbrev pub motor_device_fault : ℕ
motor_device_fault = 2 ^ 4

-- `DEVICE_STATUS.fetch_or(flags.bits())`.
unfoldable pub set_status : ℕ → ℕ → ℕ
set_status flags status = bit_or status flags

-- `DEVICE_STATUS.fetch_and(!flags.bits())`, in 16 bits.
unfoldable pub clear_status : ℕ → ℕ → ℕ
clear_status flags status = bit_and status (2 ^ 16 - 1 - flags)
