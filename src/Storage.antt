-- ===== src/Storage.antt =====
-- The log storage of the test board and its host tool: the wire types (crates/wire-types/src/lib.rs),
-- the device's side (fw-test-board/app/src/logging.rs) and the host's (tools/asteria-tool/src).
pub mod Text
pub mod Wire
pub mod Path
pub mod Littlefs
pub mod Device
pub mod Natural
pub mod Session
pub mod Host
pub mod Remote
pub mod Logging
mod Examples
