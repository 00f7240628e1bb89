-- ===== src/Lib.antt =====
-- A model of parts of the ASTERIA rocket firmware, with the theorems that make them correct.
--
-- Epos4 models the driver of the Maxon EPOS4 motor controller (crates/devices/epos4/src/lib.rs). Link
-- is the serial link: the state `Epos4` holds the node, what the port will deliver, how it takes each
-- byte and what it has taken; an operation returns, fails or waits for ever. Frame has
-- send_request_frame and read_response_frame, Crc the CRC of the frames, Object write_object and
-- read_object, Device the error and status codes, Dictionary the object indices, Motor every operation
-- of the driver. The loop of update_crc runs on fuel 17: its mask reaches 0 after 16 rounds.
--
-- Rsbl models the driver of the two steering servos (fw-recovery-board/app/src/rsbl_servo.rs): Bus the
-- port and single transfers, Frame write_to_servo and read_from_servo, Motion the moves and the sensor
-- data. The loop of move_absolute runs on fuel that is one more than the distance divided by 32766,
-- which is what a round takes off the distance.
--
-- Recovery models the recovery board: Servo the separation and deployment servos and the turns of their
-- tasks (fw-recovery-board/app/src/servo.rs and actuator_control.rs), Cats the readout of the backup
-- flight computer (cats.rs), and, on top of Rsbl, Watchdog (watchdog.rs) and Steering, one round of
-- steering_task (actuator_control.rs).
--
-- Dpr models the digital pressure regulator (crates/devices/dpr/src): one round of pid_controller.
--
-- Lox models the start of the LOX valve (fw-lox-valve-control-board/app/src) on top of Epos4: Status is
-- the device status register (modbus_server.rs), Task an operation of the motor under its timeout, and
-- Valve the wait for the motor, the homing and the start (valve.rs and main.rs). The two loops run on
-- fuel, the number of attempts and of looks at the limit switch; a run that uses it up is still waiting,
-- as the code is, whose loops have no bound. What arrives before each operation is given up, and what
-- the limit switch shows, are fields of the state.
--
-- Keller models the driver of the Keller 23SX pressure sensors (crates/devices/keller-pressure/src):
-- Uart is the UART register, Bus a transaction on the shared RS485 bus with the reading and writing of
-- holding registers, Device every register operation. The Modbus library and the library of the flags
-- are records of the calls that the driver makes, given as arguments.
--
-- Storage models the log storage of the test board and its host tool: Text strings as lists of
-- characters, Wire the messages (crates/wire-types/src/lib.rs), Path the paths on both sides, Device the
-- handlers of the board (fw-test-board/app/src/logging.rs), Natural the order of names and Host the
-- operations of the tool over any backend (tools/asteria-tool/src, ops.rs and vfs.rs), Remote the tool
-- in front of the handlers, Session the choice and set-up of the directory of a session and Logging the
-- rounds of logging_task. The file system library is a record of calls over an unknown state.
-- The link of Remote loses nothing and has no timeouts; the serialisation is the identity. The loop of
-- read_file_bytes runs on one more than the size of the file, as each round adds a byte; that of
-- list_dir_entries on a given number of pages, as the code's loop has no bound. The fuel of the order of
-- names is the length of the first name, of which each round takes a byte.
--
-- Ms5607 models the driver of the barometer (crates/devices/ms5607/src/lib.rs): Crc the checksum of the
-- calibration memory, Compensation its arithmetic, in which every operation wraps, and Driver the
-- start-up and the measurement. The bus and the delays are a record of calls over an unknown state, and
-- the two operations on floats another.
--
-- Prelude has the shared names, Int the signed integers; Words the casts between the widths, where
-- arithmetic wraps because the release profile is built with overflow-checks = false; Bits the laws of
-- the bit operations. Floats are a record of the operations used. The ports, the clock, the watch
-- channels and what resetting a port does come in as arguments or as fields of the state. Log output,
-- task spawning, pin set-up and the delays between rounds are not modelled.
pub mod Prelude
pub mod Words
pub mod Bits
pub mod Epos4
pub mod Rsbl
pub mod Recovery
pub mod Dpr
pub mod Lox
pub mod Keller
pub mod Storage
pub mod Ms5607
