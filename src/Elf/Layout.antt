-- ===== src/Elf/Layout.antt =====
-- src/elf.c: the file that e_generate makes, read by the ELF format.
use rvcc.Prelude.{
  ℕ, ◌+◌, ◌≤◌, ◌<◌, ◌≡◌, refl, sym, ap, ◌∙◌, List, [], ◌++◌, append_assoc, arith, length,
  length-append, subst,
}
use rvcc.Result.{ok, err, ◌>>=◌, Error}
use rvcc.Buffer.{◌>>◌, e_write_string}
use rvcc.Buffer.Writes.{low_bytes}
use rvcc.Buffer.Fills.{Exact, Exact->>, Exact-e_write_string, Fills-empty, Bursts-empty}
use rvcc.Elf.Defs.{Sections, e_align}
use rvcc.Elf.Generate.{
  Sizes, sizes, e_generate_header, e_generate_footer, e_output, e_generate, shstr_section,
  section_headers,
}
use rvcc.Elf.Format.{file_header_bytes, program_header_bytes, section_header_bytes}
use rvcc.Elf.Written.{
  expected_header, expected_segment, section_names, section_table, Exact-elf_header,
  Exact-program_header, Exact-shstr_section, Exact-section_headers,
}
use rvcc.Elf.Image.{
  IsImage, headed, footed, file_of, file_of-IsImage, length-low_bytes, length-file_header_bytes,
  length-program_header_bytes,
}

-- The header and the footer are empty and their arrays have room for what belongs there, and the
-- data section is within its array.
pub record HasRoom (s : Sections) : Type 0 where
  pub header_empty : s.header.bytes ≡ []
  pub header_room : 84 ≤ s.header.cap
  pub footer_empty : s.footer.bytes ≡ []
  pub footer_room : length s.symtab.bytes + length s.strtab.bytes + 279 ≤ s.footer.cap
  pub data_room : length s.data_.bytes ≤ s.data_.cap

length-section_table : (z : Sizes) → length (section_table z) ≡ 240
unfolding section_header_bytes
length-section_table z = refl

length-footed :
    (s : Sections) → length (footed s) ≡ length s.symtab.bytes + length s.strtab.bytes + 279
length-footed s =
    let y = low_bytes s.symtab.bytes in
    let t = low_bytes s.strtab.bytes in
    let b = section_table (sizes s) in
    omega (
      arith,
      length-append (y ++ t ++ section_names) b,
      length-append (y ++ t) section_names,
      length-append y t,
      length-low_bytes s.symtab.bytes,
      length-low_bytes s.strtab.bytes,
      length-section_table (sizes s),
    )

Exact-footer :
    (s : Sections)
    → Exact (footed s) (
        e_write_string s.symtab.bytes
        >> e_write_string s.strtab.bytes
        >> shstr_section
        >> section_headers (sizes s))
Exact-footer s =
    Exact->>
      (Exact->>
        (Exact->> (Exact-e_write_string s.symtab.bytes) (Exact-e_write_string s.strtab.bytes))
        Exact-shstr_section)
      (Exact-section_headers (sizes s))

e_generate_header-ok :
    (machine flags : ℕ) (s : Sections)
    → machine < 256
    → s.header.bytes ≡ []
    → 84 ≤ s.header.cap
    → e_generate_header machine flags s
      ≡ ok (record s { header = record s.header { bytes = headed machine flags s } })
unfolding e_generate_header
e_generate_header-ok machine flags s small empty room =
    let lh = length-file_header_bytes (expected_header machine flags (sizes s)) in
    ap (λ r. r >>= (λ b. ok (record s { header = b })))
      (Fills-empty
        (Exact->> (Exact-elf_header machine flags (sizes s) small) (Exact-program_header (sizes s)))
        s.header empty
        (omega (
          arith,
          room,
          lh,
          length-program_header_bytes (expected_segment (sizes s)),
          length-append (file_header_bytes (expected_header machine flags (sizes s)))
              (program_header_bytes (expected_segment (sizes s))),
        )))

e_generate_footer-ok :
    (s : Sections)
    → s.footer.bytes ≡ []
    → length s.symtab.bytes + length s.strtab.bytes + 279 ≤ s.footer.cap
    → e_generate_footer s ≡ ok (record s { footer = record s.footer { bytes = footed s } })
unfolding e_generate_footer
e_generate_footer-ok s empty room =
    ap (λ r. r >>= (λ b. ok (record s { footer = b })))
      (Fills-empty (Exact-footer s) s.footer empty
        (subst (λ n. n ≤ s.footer.cap) (sym (length-footed s)) room))

file_of-parts :
    (machine flags : ℕ) (s : Sections)
    → headed machine flags s ++ (s.code.bytes ++ (s.data_.bytes ++ footed s))
      ≡ file_of machine flags s
file_of-parts machine flags s = simp append_assoc

e_output-ok :
    (s : Sections)
    → length s.data_.bytes ≤ s.data_.cap
    → e_output s ≡ ok (s.header.bytes ++ (s.code.bytes ++ (s.data_.bytes ++ s.footer.bytes)))
unfolding e_output
e_output-ok s room = ground arith

-- For a machine number below 256, an empty header with room for 84 bytes and an empty footer
-- with room for the symbols, their names and 279 bytes, and a data section that is within its
-- array, all after e_align, e_generate makes a file in which a reader of the ELF format finds
-- the file header, the program header, the code, the data, the symbols, the names of the symbols
-- and of the sections, and the section table where the headers say that they are, and in which
-- the section headers name their sections.
pub e_generate-IsImage :
    (machine flags : ℕ) (s : Sections)
    → machine < 256
    → HasRoom (e_align s)
    → (file : List ℕ) × (e_generate machine flags s ≡ ok file)
      × IsImage machine flags (e_align s) file
unfolding e_generate e_output sizes
e_generate-IsImage machine flags s small room =
    let a = e_align s in
    let b = record a { header = record a.header { bytes = headed machine flags a } } in
    let footer = e_generate_footer-ok b room.footer_empty room.footer_room in
    (
      file_of machine flags a,
      ap (λ r. r >>= (λ e. e_generate_footer e >>= (λ c. e_output c)))
            (e_generate_header-ok machine flags a small room.header_empty room.header_room)
          ∙ (ap (λ r. r >>= (λ c. e_output c)) footer
              ∙ (e_output-ok (record b { footer = record b.footer { bytes = footed b } })
                    room.data_room
                  ∙ ap ok (file_of-parts machine flags a))),
      file_of-IsImage machine flags a,
    )

e_generate_footer-overflow :
    (s : Sections)
    → s.footer.bytes ≡ []
    → s.footer.cap < length s.symtab.bytes + length s.strtab.bytes + 279
    → e_generate_footer s ≡ err Error.out_of_bounds
unfolding e_generate_footer
e_generate_footer-overflow s empty full =
    ap (λ r. r >>= (λ b. ok (record s { footer = b })))
      (Bursts-empty (Exact-footer s) s.footer empty
        (subst (λ n. s.footer.cap < n) (sym (length-footed s)) full))

-- For a machine number below 256, an empty header with room for 84 bytes and an empty footer
-- without room for the symbols, their names and 279 bytes, e_generate runs into the end of the
-- array of the footer.
pub e_generate-overflow :
    (machine flags : ℕ) (s : Sections)
    → machine < 256
    → s.header.bytes ≡ []
    → 84 ≤ s.header.cap
    → s.footer.bytes ≡ []
    → s.footer.cap < length (e_align s).symtab.bytes + length (e_align s).strtab.bytes + 279
    → e_generate machine flags s ≡ err Error.out_of_bounds
unfolding e_generate sizes
e_generate-overflow machine flags s small header_empty room empty full =
    let a = e_align s in
    let b = record a { header = record a.header { bytes = headed machine flags a } } in
    ap (λ r. r >>= (λ e. e_generate_footer e >>= (λ c. e_output c)))
      (e_generate_header-ok machine flags a small header_empty room)
    ∙ ap (λ r. r >>= (λ c. e_output c)) (e_generate_footer-overflow b empty full)
