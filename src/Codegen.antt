-- ===== src/Codegen.antt =====
-- src/codegen.c: from the intermediate language to the bytes of the code section, in two passes.
pub mod Sizing
pub mod Frames
pub mod Fuel
pub mod Defs
pub mod Shape
pub mod Growth
pub mod Placement
