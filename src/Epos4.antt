-- ===== src/Epos4.antt =====
-- The driver of the Maxon EPOS4 motor controller (crates/devices/epos4/src/lib.rs): its serial
-- link, its frames, the object dictionary accesses and the operations built on them.
pub mod Device
pub mod Crc
pub mod Link
pub mod Frame
pub mod Object
pub mod Dictionary
pub mod Motor
mod Examples
