-- ===== src/Arm/Decode.antt =====
-- src/arch/arm.c: the encoders against the instruction set. What an encoder returns decodes to
-- the instruction that was asked for.
pub mod Words
pub mod Data
pub mod Halves
pub mod Transfer
pub mod Branch
pub mod Register
