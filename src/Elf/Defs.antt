-- ===== src/Elf/Defs.antt =====
-- src/elf.c: the sections, the symbol table and the alignment of the sections.
use rvcc.Prelude.{ℕ, zero, suc, ◌+◌, ◌-◌, ◌^◌, List, [], ◌∷◌, ◌==◌, if◌then◌else◌, length}
use rvcc.Result.{Result, ok, ◌>>=◌}
use rvcc.Word.{mask32}
use rvcc.Il.{CString}
use rvcc.Buffer.{Buffer, Emit, ◌>>◌, e_write_byte, e_write_int, e_write_string, skip_bytes}

abbrev pub elf_start : ℕ
elf_start = 0x10000

-- _e_header_len, 0x34 + 1 * 0x20
abbrev pub header_len : ℕ
header_len = 0x54

-- The globals of src/globals.c for the sections; the index of each is the length of its bytes.
pub record Sections : Type 0 where
  pub code : Buffer
  pub data_ : Buffer
  pub symtab : Buffer
  pub strtab : Buffer
  pub header : Buffer
  pub footer : Buffer
  pub symbol_idx : ℕ

-- What strncpy(dest, symbol, len) writes: at most `len` bytes, filled up with zeros.
unfoldable pub strncpy_bytes : ℕ → CString → List ℕ
strncpy_bytes zero symbol = []
strncpy_bytes (suc len) [] = 0 ∷ strncpy_bytes len []
strncpy_bytes (suc len) (c ∷ symbol) = c ∷ strncpy_bytes len symbol

unfoldable pub symbol_entry : ℕ → ℕ → Emit
symbol_entry name_offset pc = do
  e_write_int name_offset
  e_write_int pc
  e_write_int 0
  e_write_int (if pc == 0 then 0 else 2 ^ 16)

unfoldable pub e_add_symbol : CString → ℕ → ℕ → Sections → Result Sections
unfolding symbol_entry
e_add_symbol symbol len pc s = do
  symtab ← symbol_entry (length s.strtab.bytes) pc s.symtab
  strtab ← (e_write_string (strncpy_bytes len symbol) >> e_write_byte 0) s.strtab
  ok (record s { symtab = symtab; strtab = strtab; symbol_idx = s.symbol_idx + 1 })

-- Moves an index on to a multiple of 4.
unfoldable pub align_buffer : Buffer → Buffer
align_buffer b =
    let remainder = mask32 (length b.bytes) 4 in
    if remainder == 0 then b else skip_bytes (4 - remainder) b

unfoldable pub e_align : Sections → Sections
e_align s = record s {
  data_ = align_buffer s.data_;
  symtab = align_buffer s.symtab;
  strtab = align_buffer s.strtab;
}

abbrev allocated : ℕ → (ℕ → ℕ) → Buffer
allocated cap stale = record { bytes = []; stale = stale; cap = cap }

-- The sections as g_initialize of src/globals.c leaves them: MAX_CODE, MAX_DATA, MAX_SYMTAB, MAX_STRTAB,
-- MAX_HEADER and MAX_FOOTER bytes. `stale` is what malloc finds in the memory.
unfoldable pub g_initialize : (ℕ → ℕ) → Sections
g_initialize stale = record {
  code = allocated 1048576 stale;
  data_ = allocated 1048576 stale;
  symtab = allocated 65536 stale;
  strtab = allocated 65536 stale;
  header = allocated 1024 stale;
  footer = allocated 1024 stale;
  symbol_idx = 0;
}
