-- ===== src/Lox.antt =====
-- The board of the LOX valve (fw-lox-valve-control-board/app/src): its status register and the start
-- of the valve's motor.
pub mod Status
pub mod Task
pub mod Valve
mod Examples
