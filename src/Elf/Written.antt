-- ===== src/Elf/Written.antt =====
-- src/elf.c: what the writers of the header and the footer leave in their buffers.
use rvcc.Prelude.{
  ℕ, ◌+◌, ◌%◌, ◌<◌, ◌≡◌, refl, ap, ◌/◌, ◌^◌, take, drop, ◌∙◌, subst, List, [], ◌∷◌, ◌++◌, arith,
}
use rvcc.Buffer.{Emit, ◌>>◌, e_write_byte, e_write_int}
use rvcc.Buffer.Fills.{Exact, Exact->>, Exact-e_write_byte, Exact-e_write_int, Exact-e_write_string}
use rvcc.Buffer.Writes.{le_bytes}
use rvcc.Elf.Defs.{elf_start, header_len}
use rvcc.Elf.Generate.{
  Sizes, elf_header, program_header, shstr_section, SectionHeader, write_section_header,
  section_headers, null_header, text_header, data_header, symtab_header, strtab_header,
  shstr_header, name_shstrtab, name_text, name_data, name_symtab, name_strtab,
}
use rvcc.Elf.Format.{
  FileHeader, ProgramHeader, file_header_bytes, program_header_bytes, section_header_bytes,
}

-- Where the section headers start.
abbrev pub table_offset : Sizes → ℕ
table_offset z = header_len + z.code + z.data_ + 39 + z.symtab + z.strtab

-- The header that the file of these sizes must have: an executable with one program header, entered
-- at the first byte of the code.
abbrev pub expected_header : ℕ → ℕ → Sizes → FileHeader
expected_header machine flags z = record {
  e_type = 2;
  e_machine = machine;
  e_version = 1;
  e_entry = elf_start + header_len;
  e_phoff = 52;
  e_shoff = table_offset z;
  e_flags = flags;
  e_ehsize = 52;
  e_phentsize = 32;
  e_phnum = 1;
  e_shentsize = 40;
  e_shnum = 6;
  e_shstrndx = 5;
}

-- Code and data are loaded as one segment, from right behind the headers.
abbrev pub expected_segment : Sizes → ProgramHeader
expected_segment z = record {
  p_type = 1;
  p_offset = header_len;
  p_vaddr = elf_start + header_len;
  p_paddr = elf_start + header_len;
  p_filesz = z.code + z.data_;
  p_memsz = z.code + z.data_;
  p_flags = 7;
  p_align = 4;
}

infixr 20 ◌▹◌
abbrev ◌▹◌ : {ws vs : List ℕ} {m n : Emit} → Exact ws m → Exact vs n → Exact (ws ++ vs) (m >> n)
p ▹ q = Exact->> p q

byte : (v : ℕ) → Exact (v % 256 ∷ []) (e_write_byte v)
byte = Exact-e_write_byte

int : (v : ℕ) → Exact (le_bytes v) (e_write_int v)
int = Exact-e_write_int

pub Exact-write_section_header :
    (h : SectionHeader) → Exact (section_header_bytes h) (write_section_header h)
unfolding write_section_header section_header_bytes
Exact-write_section_header h =
    int h.sh_name
    ▹ int h.sh_type
    ▹ int h.sh_flags
    ▹ int h.sh_addr
    ▹ int h.sh_offset
    ▹ int h.sh_size
    ▹ int h.sh_link
    ▹ int h.sh_info
    ▹ int h.sh_addralign
    ▹ int h.sh_entsize

pub Exact-program_header :
    (z : Sizes) → Exact (program_header_bytes (expected_segment z)) (program_header z)
unfolding program_header program_header_bytes
Exact-program_header z =
    int 1
    ▹ int header_len
    ▹ int (elf_start + header_len)
    ▹ int (elf_start + header_len)
    ▹ int (z.code + z.data_)
    ▹ int (z.code + z.data_)
    ▹ int 7
    ▹ int 4

-- The header, with what stands in the second byte of the machine left open.
elf_header_image : ℕ → ℕ → Sizes → ℕ → List ℕ
unfolding file_header_bytes
elf_header_image machine flags z high =
    take 18 (file_header_bytes (expected_header machine flags z))
    ++ machine % 256 ∷ high ∷ drop 20 (file_header_bytes (expected_header machine flags z))

Exact-elf_header_image :
    (machine flags : ℕ) (z : Sizes)
    → Exact (elf_header_image machine flags z 0) (elf_header machine flags z)
unfolding elf_header file_header_bytes elf_header_image
Exact-elf_header_image machine flags z =
    int 0x464c457f
    ▹ byte 1
    ▹ byte 1
    ▹ byte 1
    ▹ byte 0
    ▹ int 0
    ▹ int 0
    ▹ byte 2
    ▹ byte 0
    ▹ byte machine
    ▹ byte 0
    ▹ int 1
    ▹ int (elf_start + header_len)
    ▹ int 0x34
    ▹ int (table_offset z)
    ▹ int flags
    ▹ byte 0x34
    ▹ byte 0
    ▹ byte 0x20
    ▹ byte 0
    ▹ byte 1
    ▹ byte 0
    ▹ byte 0x28
    ▹ byte 0
    ▹ byte 6
    ▹ byte 0
    ▹ byte 5
    ▹ byte 0

elf_header_image-half :
    (machine flags : ℕ) (z : Sizes)
    → elf_header_image machine flags z (machine / 2 ^ 8 % 256)
      ≡ file_header_bytes (expected_header machine flags z)
unfolding elf_header_image file_header_bytes
elf_header_image-half machine flags z = refl

pub Exact-elf_header :
    (machine flags : ℕ) (z : Sizes)
    → machine < 256
    → Exact (file_header_bytes (expected_header machine flags z)) (elf_header machine flags z)
Exact-elf_header machine flags z small =
    let high : 0 ≡ machine / 2 ^ 8 % 256 = omega arith in
    subst (λ ws. Exact ws (elf_header machine flags z))
      (ap (elf_header_image machine flags z) high ∙ elf_header_image-half machine flags z)
      (Exact-elf_header_image machine flags z)

-- The names of the sections: a string table in which each name is closed by a zero.
abbrev pub section_names : List ℕ
section_names =
    0 ∷ name_shstrtab
    ++ 0 ∷ name_text
    ++ 0 ∷ name_data
    ++ 0 ∷ name_symtab
    ++ 0 ∷ name_strtab
    ++ 0 ∷ []

pub Exact-shstr_section : Exact section_names shstr_section
unfolding shstr_section
Exact-shstr_section =
    byte 0
    ▹ Exact-e_write_string name_shstrtab
    ▹ byte 0
    ▹ Exact-e_write_string name_text
    ▹ byte 0
    ▹ Exact-e_write_string name_data
    ▹ byte 0
    ▹ Exact-e_write_string name_symtab
    ▹ byte 0
    ▹ Exact-e_write_string name_strtab
    ▹ byte 0

abbrev pub section_table : Sizes → List ℕ
section_table z =
    section_header_bytes null_header
    ++ section_header_bytes (text_header z)
    ++ section_header_bytes (data_header z)
    ++ section_header_bytes (symtab_header z)
    ++ section_header_bytes (strtab_header z)
    ++ section_header_bytes (shstr_header z)

pub Exact-section_headers : (z : Sizes) → Exact (section_table z) (section_headers z)
unfolding section_headers section_header_bytes write_section_header
Exact-section_headers z =
    Exact-write_section_header null_header
    ▹ Exact-write_section_header (text_header z)
    ▹ Exact-write_section_header (data_header z)
    ▹ Exact-write_section_header (symtab_header z)
    ▹ Exact-write_section_header (strtab_header z)
    ▹ Exact-write_section_header (shstr_header z)
