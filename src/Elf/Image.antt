-- ===== src/Elf/Image.antt =====
-- src/elf.c: the files in which a reader of the ELF format finds the sections.
use rvcc.Prelude.{
  ℕ, suc, ◌≡◌, refl, sym, ap, ◌∙◌, List, [], ◌∷◌, ◌++◌, arith, length, take, drop, take-length,
}
use rvcc.Buffer.Writes.{low_bytes}
use rvcc.Elf.Defs.{Sections}
use rvcc.Elf.Generate.{
  name_text, name_data, name_symtab, name_strtab, name_shstrtab, sizes, text_header, data_header,
  symtab_header, strtab_header, shstr_header,
}
use rvcc.Elf.Slices.{eight, part_p, part_c, part_d, part_y, part_t, part_n, part_b}
use rvcc.Elf.Format.{FileHeader, ProgramHeader, file_header_bytes, program_header_bytes, slice}
use rvcc.Elf.Written.{expected_header, expected_segment, section_names, section_table, table_offset}

-- A reader of the file finds each part where the headers say that it is.
pub record IsImage (machine flags : ℕ) (s : Sections) (file : List ℕ) : Type 0 where
  pub header : take 52 file ≡ file_header_bytes (expected_header machine flags (sizes s))
  pub segment : slice 52 32 file ≡ program_header_bytes (expected_segment (sizes s))
  pub text :
      slice (text_header (sizes s)).sh_offset (text_header (sizes s)).sh_size file ≡ s.code.bytes
  pub data_ :
      slice (data_header (sizes s)).sh_offset (data_header (sizes s)).sh_size file ≡ s.data_.bytes
  pub symtab :
      slice (symtab_header (sizes s)).sh_offset (symtab_header (sizes s)).sh_size file
      ≡ low_bytes s.symtab.bytes
  pub strtab :
      slice (strtab_header (sizes s)).sh_offset (strtab_header (sizes s)).sh_size file
      ≡ low_bytes s.strtab.bytes
  pub names :
      slice (shstr_header (sizes s)).sh_offset (shstr_header (sizes s)).sh_size file ≡ section_names
  pub named :
      (slice (text_header (sizes s)).sh_name 6 section_names ≡ name_text ++ 0 ∷ [])
      × (slice (data_header (sizes s)).sh_name 6 section_names ≡ name_data ++ 0 ∷ [])
      × (slice (symtab_header (sizes s)).sh_name 8 section_names ≡ name_symtab ++ 0 ∷ [])
      × (slice (strtab_header (sizes s)).sh_name 8 section_names ≡ name_strtab ++ 0 ∷ [])
      × (slice (shstr_header (sizes s)).sh_name 10 section_names ≡ name_shstrtab ++ 0 ∷ [])
  pub table : drop (table_offset (sizes s)) file ≡ section_table (sizes s)

pub length-low_bytes : (vals : List ℕ) → length (low_bytes vals) ≡ length vals
length-low_bytes [] = refl
length-low_bytes (v ∷ vals) = ap suc (length-low_bytes vals)

abbrev parts : ℕ → ℕ → Sections → List ℕ
parts machine flags s =
    file_header_bytes (expected_header machine flags (sizes s))
    ++ (program_header_bytes (expected_segment (sizes s))
        ++ (s.code.bytes
            ++ (s.data_.bytes
                ++ (low_bytes s.symtab.bytes
                    ++ (low_bytes s.strtab.bytes ++ (section_names ++ section_table (sizes s)))))))

abbrev pub headed : ℕ → ℕ → Sections → List ℕ
headed machine flags s =
    file_header_bytes (expected_header machine flags (sizes s))
    ++ program_header_bytes (expected_segment (sizes s))

abbrev pub footed : Sections → List ℕ
footed s =
    low_bytes s.symtab.bytes ++ low_bytes s.strtab.bytes ++ section_names ++ section_table (sizes s)

-- The file in its eight parts.
abbrev pub file_of : ℕ → ℕ → Sections → List ℕ
file_of machine flags s =
    eight (file_header_bytes (expected_header machine flags (sizes s)))
      (program_header_bytes (expected_segment (sizes s))) s.code.bytes s.data_.bytes
      (low_bytes s.symtab.bytes) (low_bytes s.strtab.bytes) section_names (section_table (sizes s))

pub length-file_header_bytes : (h : FileHeader) → length (file_header_bytes h) ≡ 52
unfolding file_header_bytes
length-file_header_bytes h = refl

pub length-program_header_bytes : (p : ProgramHeader) → length (program_header_bytes p) ≡ 32
unfolding program_header_bytes
length-program_header_bytes p = refl

pub file_of-IsImage :
    (machine flags : ℕ) (s : Sections) → IsImage machine flags s (file_of machine flags s)
unfolding sizes text_header data_header symtab_header strtab_header shstr_header
file_of-IsImage machine flags s =
    let h = file_header_bytes (expected_header machine flags (sizes s)) in
    let p = program_header_bytes (expected_segment (sizes s)) in
    let c = s.code.bytes in
    let d = s.data_.bytes in
    let y = low_bytes s.symtab.bytes in
    let t = low_bytes s.strtab.bytes in
    let b = section_table (sizes s) in
    let lh = length-file_header_bytes (expected_header machine flags (sizes s)) in
    let lp = length-program_header_bytes (expected_segment (sizes s)) in
    let ly = length-low_bytes s.symtab.bytes in
    let lt = length-low_bytes s.strtab.bytes in
    record {
      header = ap (λ k. take k (file_of machine flags s)) (sym lh) ∙ take-length h _;
      segment =
          ap (λ k. take 32 (drop k (file_of machine flags s))) (sym lh)
          ∙ part_p h p c d y t section_names b (sym lp);
      text =
          part_c h p c d y t section_names b (text_header (sizes s)).sh_offset
            (omega (arith, lh, lp)) refl;
      data_ =
          part_d h p c d y t section_names b (data_header (sizes s)).sh_offset
            (omega (arith, lh, lp)) refl;
      symtab =
          part_y h p c d y t section_names b (symtab_header (sizes s)).sh_offset
            (omega (arith, lh, lp)) (sym ly);
      strtab =
          part_t h p c d y t section_names b (strtab_header (sizes s)).sh_offset
            (omega (arith, lh, lp, ly)) (sym lt);
      names =
          part_n h p c d y t section_names b (shstr_header (sizes s)).sh_offset
            (omega (arith, lh, lp, ly, lt)) refl;
      named = (refl, refl, refl, refl, refl);
      table =
          part_b h p c d y t section_names b (table_offset (sizes s))
            (omega (arith, lh, lp, ly, lt));
    }
