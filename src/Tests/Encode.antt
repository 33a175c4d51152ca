-- ===== src/Tests/Encode.antt =====
-- Single instructions, encoded.
use rvcc.Prelude.{◌*◌, ◌/◌, ◌^◌, ◌≡◌, refl, some, arith}
use rvcc.Word.{IsWord, add32, neg32}
use rvcc.RiscV.Opcode.{RiOp}
use rvcc.RiscV.Encode.{
  r_encode_R, r_encode_I, r_encode_S, r_encode_B, r_encode_J, r_encode_U, r_hi, r_lo,
}
use rvcc.RiscV.Isa.{decode, r_type, i_type, s_type, b_type, u_type, j_type}
use rvcc.RiscV.Decode.Fields.{EncodesTo, InRange}
use rvcc.RiscV.Decode.Range.{StopsBeyond, Encoded, offset_too_large-encoders}
use rvcc.RiscV.Decode.Formats.{decode-data_formats, decode-control_formats}
use rvcc.RiscV.HiLo.{hi_lo}

decode-data_formats_example :
    (decode (r_encode_R RiOp.sub 10 2 11) ≡ some (r_type RiOp.sub 10 2 11))
    × EncodesTo (r_encode_I RiOp.addi 10 2 (neg32 16)) (i_type RiOp.addi 10 2 (neg32 16))
    × EncodesTo (r_encode_I RiOp.srai 10 2 31) (i_type RiOp.srai 10 2 31)
    × EncodesTo (r_encode_S RiOp.sw 2 11 (neg32 16)) (s_type RiOp.sw 2 11 (neg32 16))
decode-data_formats_example =
    decode-data_formats 10 2 11 (omega arith) (omega arith) (omega arith) (neg32 16) 31 RiOp.sub
      RiOp.addi RiOp.srai RiOp.sw (omega arith, refl) (omega arith) tt tt tt tt

decode-control_formats_example :
    EncodesTo (r_encode_B RiOp.bge 10 11 (neg32 4096)) (b_type RiOp.bge 10 11 (neg32 4096))
    × EncodesTo (r_encode_J RiOp.jal 1 (neg32 2048)) (j_type RiOp.jal 1 (neg32 2048))
    × EncodesTo
        (r_encode_U RiOp.lui 1 0x12345678)
        (u_type RiOp.lui 1 (0x12345678 / 2 ^ 12 * 2 ^ 12))
decode-control_formats_example =
    decode-control_formats 1 10 11 (omega arith) (omega arith) (omega arith) (neg32 4096)
      (neg32 2048) 0x12345678 RiOp.bge RiOp.lui ((omega arith, refl), refl)
      ((omega arith, refl), refl) (omega arith) tt tt

offset_too_large-encoders_example :
    StopsBeyond 11 2048 (r_encode_I RiOp.lw 10 2 2048)
    × StopsBeyond 11 2048 (r_encode_S RiOp.sw 2 11 2048)
    × StopsBeyond 12 2048 (r_encode_B RiOp.beq 2 11 2048)
    × Encoded (r_encode_J RiOp.jal 10 2048)
    × Encoded (r_encode_U RiOp.lui 10 2048)
offset_too_large-encoders_example =
    offset_too_large-encoders RiOp.lw RiOp.sw RiOp.beq RiOp.jal RiOp.lui 10 2 11 2048 (omega arith)

hi_lo_example :
    (add32 (r_hi 0x12345fff / 2 ^ 12 * 2 ^ 12) (r_lo 0x12345fff) ≡ 0x12345fff)
    × InRange 2047 2048 (r_lo 0x12345fff)
    × IsWord (r_hi 0x12345fff)
hi_lo_example = hi_lo 0x12345fff (omega arith)
