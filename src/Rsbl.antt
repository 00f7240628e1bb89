-- ===== src/Rsbl.antt =====
-- The driver of the two RSBL85-24 steering servos on one RS-485 bus
-- (fw-recovery-board/app/src/rsbl_servo.rs).
pub mod Bus
pub mod Transfer
pub mod Frame
pub mod Motion
mod Examples
