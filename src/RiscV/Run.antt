-- ===== src/RiscV/Run.antt =====
-- What the code of the RISC-V backend does when it runs.
pub mod Arith
pub mod Compare
pub mod Constant
pub mod Jump
pub mod Stack
