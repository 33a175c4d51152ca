-- ===== src/RiscV/Decode/Store.antt =====
-- Stores: r_encode_S.
use rvcc.Prelude.{ℕ, ◌+◌, ◌*◌, ◌%◌, ◌^◌, ◌<◌, ◌≡◌, refl, ap, ◌∙◌, some, arith, if◌then◌else◌}
use rvcc.Result.{Result, ok, err, ◌>>=◌, Error}
use rvcc.Word.{IsWord, add32, shl32}
use rvcc.RiscV.Opcode.{RiOp, ri_op}
use rvcc.RiscV.Encode.{r_encode_S, outside, twelve_bits}
use rvcc.RiscV.Isa.{
  s_type, decode_fields, rs1_field, rs2_field, rd_field, funct7_field, sign_extend, s_immediate,
}
use rvcc.RiscV.Decode.Fields.{IsRegister, InRange, EncodesTo, decode_at}
use rvcc.RiscV.Decode.Extract.{bits, extract_0_4, extract_5_11}
use rvcc.RiscV.Decode.Immediate.{twelve_bits-low, sign_extend-low}

abbrev pub IsStoreOp : RiOp → Type 0
IsStoreOp RiOp.sb = Unit
IsStoreOp RiOp.sh = Unit
IsStoreOp RiOp.sw = Unit
IsStoreOp _ = ⊥

module _ (rs1 rs2 imm : ℕ) (s1 : IsRegister rs1) (s2 : IsRegister rs2)
    (range : InRange 2047 2048 imm) where
  abbrev s_word : ℕ → ℕ
  s_word op =
      add32
        (add32 (add32 (add32 op (shl32 rs1 15)) (shl32 rs2 20))
          (bits (twelve_bits imm) 0 5 * 2 ^ 7))
        (bits (twelve_bits imm) 5 7 * 2 ^ 25)

  abbrev s_checked : RiOp → Result ℕ → Result ℕ → Result ℕ
  s_checked op low high = if outside 2047 2048 imm then err Error.offset_too_large else do
    l ← low
    h ← high
    ok (add32 (add32 (add32 (add32 (ri_op op) (shl32 rs1 15)) (shl32 rs2 20)) l) h)

  r_encode_S-s_word : (op : RiOp) → r_encode_S op rs1 rs2 imm ≡ ok (s_word (ri_op op))
  unfolding r_encode_S
  r_encode_S-s_word op =
      let small : IsWord (twelve_bits imm) = omega (arith, twelve_bits-low imm range) in
      (λ i.
        s_checked op (extract_0_4 (twelve_bits imm) small i)
          (extract_5_11 (twelve_bits imm) small i))
      ∙ rw range.1

  decode-s_word :
      (op : RiOp) (funct3 : ℕ)
      → funct3 < 8
      → ri_op op ≡ 0x23 + funct3 * 2 ^ 12
      → ((w : ℕ)
          → decode_fields 0x23 funct3 (funct7_field w) w
            ≡ some (s_type op (rs1_field w) (rs2_field w) (s_immediate w)))
      → EncodesTo (r_encode_S op rs1 rs2 imm) (s_type op rs1 rs2 imm)
  decode-s_word op funct3 f3 e known =
      let w = s_word (ri_op op) in
      let low = twelve_bits-low imm range in
      let s1' : rs1_field w ≡ rs1 = omega (arith, e, low) in
      let s2' : rs2_field w ≡ rs2 = omega (arith, e, low) in
      let field : funct7_field w * 2 ^ 5 + rd_field w ≡ imm % 2 ^ 12 = omega (arith, e, low) in
      let imm' : s_immediate w ≡ imm = ap (sign_extend 12) field ∙ sign_extend-low imm range in
      (
        w,
        r_encode_S-s_word op,
        omega arith,
        decode_at {opcode = 0x23} {funct3 = funct3} {funct7 = funct7_field w} w
              (omega (arith, e, low)) (omega (arith, e, low)) refl
            ∙ (known w ∙ λ i. some (s_type op (s1' i) (s2' i) (imm' i))),
      )

  -- With registers below 32 and an offset from -2048 to 2047, every store is encoded as a 32-bit
  -- word, and the word decodes to the instruction.
  pub decode-r_encode_S :
      (op : RiOp) → IsStoreOp op → EncodesTo (r_encode_S op rs1 rs2 imm) (s_type op rs1 rs2 imm)
  unfolding ri_op decode_fields
  decode-r_encode_S RiOp.sb i = decode-s_word RiOp.sb 0 (omega arith) refl (λ w. refl)
  decode-r_encode_S RiOp.sh i = decode-s_word RiOp.sh 1 (omega arith) refl (λ w. refl)
  decode-r_encode_S RiOp.sw i = decode-s_word RiOp.sw 2 (omega arith) refl (λ w. refl)
  decode-r_encode_S _ i = absurd i
