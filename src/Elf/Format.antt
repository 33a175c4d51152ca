-- ===== src/Elf/Format.antt =====
-- The ELF format for 32-bit little-endian files, as its specification lays the structures out:
-- what the writers of src/elf.c are held against.
use rvcc.Prelude.{ℕ, ◌/◌, ◌%◌, ◌^◌, List, [], ◌∷◌, ◌++◌, take, drop}
use rvcc.Buffer.Writes.{le_bytes}
use rvcc.Elf.Generate.{SectionHeader}

-- Elf32_Half
abbrev pub half : ℕ → List ℕ
half v = v % 256 ∷ v / 2 ^ 8 % 256 ∷ []

-- Elf32_Ehdr, without its identification.
pub record FileHeader : Type 0 where
  pub e_type : ℕ
  pub e_machine : ℕ
  pub e_version : ℕ
  pub e_entry : ℕ
  pub e_phoff : ℕ
  pub e_shoff : ℕ
  pub e_flags : ℕ
  pub e_ehsize : ℕ
  pub e_phentsize : ℕ
  pub e_phnum : ℕ
  pub e_shentsize : ℕ
  pub e_shnum : ℕ
  pub e_shstrndx : ℕ

-- The magic number, 32 bits, little-endian, version 1, System V, and padding.
abbrev pub identification : List ℕ
identification = 0x7f ∷ b'E' ∷ b'L' ∷ b'F' ∷ 1 ∷ 1 ∷ 1 ∷ 0 ∷ 0 ∷ 0 ∷ 0 ∷ 0 ∷ 0 ∷ 0 ∷ 0 ∷ 0 ∷ []

unfoldable pub file_header_bytes : FileHeader → List ℕ
file_header_bytes h =
    identification
    ++ half h.e_type
    ++ half h.e_machine
    ++ le_bytes h.e_version
    ++ le_bytes h.e_entry
    ++ le_bytes h.e_phoff
    ++ le_bytes h.e_shoff
    ++ le_bytes h.e_flags
    ++ half h.e_ehsize
    ++ half h.e_phentsize
    ++ half h.e_phnum
    ++ half h.e_shentsize
    ++ half h.e_shnum
    ++ half h.e_shstrndx

-- Elf32_Phdr
pub record ProgramHeader : Type 0 where
  pub p_type : ℕ
  pub p_offset : ℕ
  pub p_vaddr : ℕ
  pub p_paddr : ℕ
  pub p_filesz : ℕ
  pub p_memsz : ℕ
  pub p_flags : ℕ
  pub p_align : ℕ

unfoldable pub program_header_bytes : ProgramHeader → List ℕ
program_header_bytes p =
    le_bytes p.p_type
    ++ le_bytes p.p_offset
    ++ le_bytes p.p_vaddr
    ++ le_bytes p.p_paddr
    ++ le_bytes p.p_filesz
    ++ le_bytes p.p_memsz
    ++ le_bytes p.p_flags
    ++ le_bytes p.p_align

-- Elf32_Shdr
unfoldable pub section_header_bytes : SectionHeader → List ℕ
section_header_bytes h =
    le_bytes h.sh_name
    ++ le_bytes h.sh_type
    ++ le_bytes h.sh_flags
    ++ le_bytes h.sh_addr
    ++ le_bytes h.sh_offset
    ++ le_bytes h.sh_size
    ++ le_bytes h.sh_link
    ++ le_bytes h.sh_info
    ++ le_bytes h.sh_addralign
    ++ le_bytes h.sh_entsize

-- The part of a file that a section header names.
abbrev pub slice : ℕ → ℕ → List ℕ → List ℕ
slice offset size file = take size (drop offset file)
