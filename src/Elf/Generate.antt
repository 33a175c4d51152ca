-- ===== src/Elf/Generate.antt =====
-- src/elf.c: e_generate_header, e_generate_footer, e_output and e_generate.
use rvcc.Prelude.{ℕ, ◌+◌, List, [], ◌∷◌, ◌++◌, ltb, if◌then◌else◌, length}
use rvcc.Result.{Result, ok, err, ◌>>=◌, Error}
use rvcc.Il.{CString}
use rvcc.Buffer.{Emit, ◌>>◌, e_write_byte, e_write_int, e_write_string}
use rvcc.Elf.Defs.{Sections, elf_start, header_len, e_align}

-- The indices that the header and the footer read.
pub record Sizes : Type 0 where
  pub code : ℕ
  pub data_ : ℕ
  pub symtab : ℕ
  pub strtab : ℕ
  pub symbols : ℕ

unfoldable pub sizes : Sections → Sizes
sizes s = record {
  code = length s.code.bytes;
  data_ = length s.data_.bytes;
  symtab = length s.symtab.bytes;
  strtab = length s.strtab.bytes;
  symbols = s.symbol_idx;
}

-- The first 52 bytes: the ELF header.
unfoldable pub elf_header : ℕ → ℕ → Sizes → Emit
elf_header machine flags z = do
  e_write_int 0x464c457f
  e_write_byte 1
  e_write_byte 1
  e_write_byte 1
  e_write_byte 0
  e_write_int 0
  e_write_int 0
  e_write_byte 2
  e_write_byte 0
  e_write_byte machine
  e_write_byte 0
  e_write_int 1
  e_write_int (elf_start + header_len)
  e_write_int 0x34
  e_write_int (header_len + z.code + z.data_ + 39 + z.symtab + z.strtab)
  e_write_int flags
  e_write_byte 0x34
  e_write_byte 0
  e_write_byte 0x20
  e_write_byte 0
  e_write_byte 1
  e_write_byte 0
  e_write_byte 0x28
  e_write_byte 0
  e_write_byte 6
  e_write_byte 0
  e_write_byte 5
  e_write_byte 0

-- The 32 bytes of the program header.
unfoldable pub program_header : Sizes → Emit
program_header z = do
  e_write_int 1
  e_write_int header_len
  e_write_int (elf_start + header_len)
  e_write_int (elf_start + header_len)
  e_write_int (z.code + z.data_)
  e_write_int (z.code + z.data_)
  e_write_int 7
  e_write_int 4

unfoldable pub e_generate_header : ℕ → ℕ → Sections → Result Sections
unfolding elf_header program_header sizes
e_generate_header machine flags s = do
  header ← (elf_header machine flags (sizes s) >> program_header (sizes s)) s.header
  ok (record s { header = header })

abbrev pub name_shstrtab : CString
name_shstrtab = b'.' ∷ b's' ∷ b'h' ∷ b's' ∷ b't' ∷ b'r' ∷ b't' ∷ b'a' ∷ b'b' ∷ []

abbrev pub name_text : CString
name_text = b'.' ∷ b't' ∷ b'e' ∷ b'x' ∷ b't' ∷ []

abbrev pub name_data : CString
name_data = b'.' ∷ b'd' ∷ b'a' ∷ b't' ∷ b'a' ∷ []

abbrev pub name_symtab : CString
name_symtab = b'.' ∷ b's' ∷ b'y' ∷ b'm' ∷ b't' ∷ b'a' ∷ b'b' ∷ []

abbrev pub name_strtab : CString
name_strtab = b'.' ∷ b's' ∷ b't' ∷ b'r' ∷ b't' ∷ b'a' ∷ b'b' ∷ []

-- The names of the sections, 39 bytes.
unfoldable pub shstr_section : Emit
shstr_section = do
  e_write_byte 0
  e_write_string name_shstrtab
  e_write_byte 0
  e_write_string name_text
  e_write_byte 0
  e_write_string name_data
  e_write_byte 0
  e_write_string name_symtab
  e_write_byte 0
  e_write_string name_strtab
  e_write_byte 0

-- One entry of the section header table, in the order of the ELF format.
pub record SectionHeader : Type 0 where
  pub sh_name : ℕ
  pub sh_type : ℕ
  pub sh_flags : ℕ
  pub sh_addr : ℕ
  pub sh_offset : ℕ
  pub sh_size : ℕ
  pub sh_link : ℕ
  pub sh_info : ℕ
  pub sh_addralign : ℕ
  pub sh_entsize : ℕ

abbrev pub section_header : ℕ → ℕ → ℕ → ℕ → ℕ → ℕ → ℕ → ℕ → ℕ → ℕ → SectionHeader
section_header name type flags addr offset size link info addralign entsize = record {
  sh_name = name;
  sh_type = type;
  sh_flags = flags;
  sh_addr = addr;
  sh_offset = offset;
  sh_size = size;
  sh_link = link;
  sh_info = info;
  sh_addralign = addralign;
  sh_entsize = entsize;
}

-- The ten calls of e_write_footer_int for one section.
unfoldable pub write_section_header : SectionHeader → Emit
write_section_header h = do
  e_write_int h.sh_name
  e_write_int h.sh_type
  e_write_int h.sh_flags
  e_write_int h.sh_addr
  e_write_int h.sh_offset
  e_write_int h.sh_size
  e_write_int h.sh_link
  e_write_int h.sh_info
  e_write_int h.sh_addralign
  e_write_int h.sh_entsize

unfoldable pub null_header : SectionHeader
null_header = section_header 0 0 0 0 0 0 0 0 0 0

unfoldable pub text_header : Sizes → SectionHeader
text_header z = section_header 0xb 1 7 (elf_start + header_len) header_len z.code 0 0 4 0

unfoldable pub data_header : Sizes → SectionHeader
data_header z =
    section_header 0x11 1 3 (elf_start + header_len + z.code) (header_len + z.code) z.data_ 0 0 4 0

unfoldable pub symtab_header : Sizes → SectionHeader
symtab_header z =
    section_header 0x17 2 0 0 (header_len + z.code + z.data_) z.symtab 4 z.symbols 4 16

unfoldable pub strtab_header : Sizes → SectionHeader
strtab_header z =
    section_header 0x1f 3 0 0 (header_len + z.code + z.data_ + z.symtab) z.strtab 0 0 1 0

unfoldable pub shstr_header : Sizes → SectionHeader
shstr_header z =
    section_header 1 3 0 0 (header_len + z.code + z.data_ + z.symtab + z.strtab) 39 0 0 1 0

unfoldable pub section_headers : Sizes → Emit
section_headers z = do
  write_section_header null_header
  write_section_header (text_header z)
  write_section_header (data_header z)
  write_section_header (symtab_header z)
  write_section_header (strtab_header z)
  write_section_header (shstr_header z)

unfoldable pub e_generate_footer : Sections → Result Sections
unfolding sizes shstr_section section_headers
e_generate_footer s = do
  footer ←
      (e_write_string s.symtab.bytes
          >> e_write_string s.strtab.bytes
          >> shstr_section
          >> section_headers (sizes s))
        s.footer
  ok (record s { footer = footer })

-- The bytes that e_output puts into the file. The index of the data section is moved on without a
-- check, and may stand behind the end of its array; that of another section never does.
unfoldable pub e_output : Sections → Result (List ℕ)
e_output s =
    if ltb s.data_.cap (length s.data_.bytes)
    then err Error.out_of_bounds
    else ok (s.header.bytes ++ (s.code.bytes ++ (s.data_.bytes ++ s.footer.bytes)))

unfoldable pub e_generate : ℕ → ℕ → Sections → Result (List ℕ)
unfolding e_align e_generate_header e_generate_footer e_output
e_generate machine flags s = do
  headed ← e_generate_header machine flags (e_align s)
  footed ← e_generate_footer headed
  e_output footed
