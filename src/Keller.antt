-- ===== src/Keller.antt =====
-- The driver of the Keller 23SX pressure sensors (crates/devices/keller-pressure/src/lib.rs).
pub mod Uart
pub mod Bus
pub mod Device
mod Examples
