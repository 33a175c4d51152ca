-- ===== src/RiscV.antt =====
-- src/arch/riscv.c: the RISC-V encoder and backend.
pub mod Opcode
pub mod Encode
pub mod Asm
pub mod Backend
pub mod Length
pub mod Isa
pub mod Decode
pub mod Machine
pub mod HiLo
pub mod Run
