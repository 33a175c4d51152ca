-- ===== src/Buffer.antt =====
-- src/elf.c: the byte buffers of the sections and the writes into them. A buffer is the array of
-- `cap` bytes that g_initialize allocates, with the index that the writes move on.
mod Defs
pub mod Writes
pub mod Fills
pub use Defs.{Buffer, Emit, ◌>>◌, pass, fail}
unfoldable pub use Defs.{
  e_write_byte, e_extract_byte, e_write_int, e_write_string, c_emit, skip_bytes,
}
