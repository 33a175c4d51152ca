-- ===== src/Backend.antt =====
-- src/defs.c: what the code generator asks of a target. An operation of a backend writes
-- instructions into the code section, and reads the tables where the source does.
pub mod Defs
pub mod Sizes
pub mod Laws
