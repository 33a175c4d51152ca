-- ===== src/Elf.antt =====
-- src/elf.c: the sections of the ELF file, its header, its footer and the file that they make.
pub mod Defs
pub mod Generate
pub mod Format
pub mod Written
mod Slices
pub mod Image
pub mod Layout
