-- ===== src/RiscV/Decode.antt =====
-- src/arch/riscv.c: the encoders against the instruction set. What an encoder returns decodes to
-- the instruction that was asked for.
pub mod Fields
pub mod Extract
pub mod Register
pub mod Immediate
pub mod Shift
pub mod Store
pub mod Branch
pub mod Upper
pub mod Named
pub mod Formats
pub mod Range
