-- ===== src/Arm.antt =====
-- src/arch/arm.c: the ARMv7 encoder and backend.
pub mod Opcode
pub mod Encode
pub mod Asm
pub mod Backend
pub mod Length
pub mod Isa
pub mod Immediate
pub mod Decode
