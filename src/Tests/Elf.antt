-- ===== src/Tests/Elf.antt =====
-- Files of a few bytes, and more symbols than the footer holds.
use rvcc.Prelude.{ℕ, zero, suc, ◌≡◌, refl, List, [], ◌∷◌, arith}
use rvcc.Result.{ok, err, Error}
use rvcc.Buffer.{e_write_string, skip_bytes}
use rvcc.Buffer.Fills.{Exact, Exact-e_write_string}
use rvcc.Elf.Defs.{Sections, align_buffer, e_align, g_initialize}
use rvcc.Elf.Generate.{e_generate}
use rvcc.Elf.Image.{IsImage}
use rvcc.Elf.Layout.{HasRoom, e_generate-IsImage, e_generate-overflow}

abbrev fresh : Sections
fresh = g_initialize (λ i. 0)

abbrev small_program : Sections
small_program = record fresh {
  code = record fresh.code { bytes = 0x73 ∷ 0 ∷ 0 ∷ 0 ∷ [] };
  data_ = record fresh.data_ { bytes = b'h' ∷ b'i' ∷ 0 ∷ [] };
}

small_program-HasRoom : HasRoom (e_align small_program)
unfolding e_align align_buffer g_initialize skip_bytes
small_program-HasRoom = record {
  header_empty = refl;
  header_room = omega arith;
  footer_empty = refl;
  footer_room = omega arith;
  data_room = omega arith;
}

e_generate-IsImage_example :
    (file : List ℕ) × (e_generate 0xf3 0x5000200 small_program ≡ ok file)
    × IsImage 0xf3 0x5000200 (e_align small_program) file
e_generate-IsImage_example =
    e_generate-IsImage 0xf3 0x5000200 small_program (omega arith) small_program-HasRoom

abbrev zeros : ℕ → List ℕ
zeros zero = []
zeros (suc n) = 0 ∷ zeros n

-- 47 symbols of 16 bytes each
abbrev many_symbols : Sections
many_symbols = record fresh { symtab = record fresh.symtab { bytes = zeros 752 } }

e_generate-overflow_example : e_generate 0xf3 0x5000200 many_symbols ≡ err Error.out_of_bounds
unfolding e_align align_buffer g_initialize
e_generate-overflow_example =
    e_generate-overflow 0xf3 0x5000200 many_symbols (omega arith) refl (omega arith) refl
      (omega arith)

Exact-e_write_string_example : Exact (1 ∷ 255 ∷ []) (e_write_string (257 ∷ 255 ∷ []))
Exact-e_write_string_example = Exact-e_write_string (257 ∷ 255 ∷ [])
