-- ===== src/Ms5607.antt =====
-- The driver of the MS5607 barometer (crates/devices/ms5607/src/lib.rs).
pub mod Prom
pub mod Crc
pub mod Compensation
pub mod Driver
mod Examples
