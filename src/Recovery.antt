-- ===== src/Recovery.antt =====
-- The actuators of the recovery board (fw-recovery-board/app/src): the steering loop with its
-- watchdog, the separation and deployment servos, and the readout of the backup flight computer.
pub mod Watchdog
pub mod Steering
pub mod Servo
pub mod Cats
mod Examples
