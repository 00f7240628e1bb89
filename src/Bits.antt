-- ===== src/Bits.antt =====
-- Laws of `^`, `&` and `|` on the native numbers, at every width, from the equations for the lowest
-- digit.
pub mod Step
pub mod Xor
pub mod Or
pub mod Fields
pub mod Single
