-- ===== src/RiscV/Decode/Register.antt =====
-- Instructions on registers: r_encode_R.
use rvcc.Prelude.{ℕ, ◌+◌, ◌*◌, ◌^◌, ◌<◌, ◌≡◌, refl, ◌∙◌, some, arith}
use rvcc.RiscV.Opcode.{RiOp, ri_op}
use rvcc.RiscV.Encode.{r_encode_R}
use rvcc.RiscV.Isa.{
  r_type, register_op, option_then, decode, decode_fields, rd_field, rs1_field, rs2_field,
}
use rvcc.RiscV.Decode.Fields.{IsRegister, decode_at}

abbrev pub IsRegisterOp : RiOp → Type 0
IsRegisterOp RiOp.add = Unit
IsRegisterOp RiOp.sub = Unit
IsRegisterOp RiOp.xor = Unit
IsRegisterOp RiOp.or = Unit
IsRegisterOp RiOp.and = Unit
IsRegisterOp RiOp.sll = Unit
IsRegisterOp RiOp.srl = Unit
IsRegisterOp RiOp.sra = Unit
IsRegisterOp RiOp.slt = Unit
IsRegisterOp RiOp.sltu = Unit
IsRegisterOp RiOp.mul = Unit
IsRegisterOp _ = ⊥

-- The word of the register format, by its fields.
abbrev r_word : ℕ → ℕ → ℕ → ℕ → ℕ → ℕ
r_word funct3 funct7 rd rs1 rs2 =
    0x33 + rd * 2 ^ 7 + funct3 * 2 ^ 12 + rs1 * 2 ^ 15 + rs2 * 2 ^ 20 + funct7 * 2 ^ 25

module _ (rd rs1 rs2 : ℕ) (d : IsRegister rd) (s1 : IsRegister rs1) (s2 : IsRegister rs2) where
  decode-r_word :
      (op : RiOp) (funct3 funct7 : ℕ)
      → funct3 < 8
      → funct7 < 128
      → ri_op op ≡ 0x33 + funct3 * 2 ^ 12 + funct7 * 2 ^ 25
      → register_op funct7 funct3 ≡ some op
      → decode (r_encode_R op rd rs1 rs2) ≡ some (r_type op rd rs1 rs2)
  unfolding r_encode_R decode_fields
  decode-r_word op funct3 funct7 f3 f7 e known =
      let w = r_encode_R op rd rs1 rs2 in
      let made : w ≡ r_word funct3 funct7 rd rs1 rs2 = omega (arith, e) in
      let d' : rd_field w ≡ rd = omega arith in
      let s1' : rs1_field w ≡ rs1 = omega arith in
      let s2' : rs2_field w ≡ rs2 = omega arith in
      decode_at {opcode = 0x33} {funct3 = funct3} {funct7 = funct7} w (omega arith) (omega arith)
        (omega arith)
      ∙ λ i. option_then (known i) (λ o. r_type o (d' i) (s1' i) (s2' i))

  -- Every instruction on three registers below 32 that r_encode_R encodes decodes to itself.
  pub decode-r_encode_R :
      (op : RiOp)
      → IsRegisterOp op
      → decode (r_encode_R op rd rs1 rs2) ≡ some (r_type op rd rs1 rs2)
  unfolding ri_op register_op
  decode-r_encode_R RiOp.add i = decode-r_word RiOp.add 0 0 (omega arith) (omega arith) refl refl
  decode-r_encode_R RiOp.sub i = decode-r_word RiOp.sub 0 32 (omega arith) (omega arith) refl refl
  decode-r_encode_R RiOp.xor i = decode-r_word RiOp.xor 4 0 (omega arith) (omega arith) refl refl
  decode-r_encode_R RiOp.or i = decode-r_word RiOp.or 6 0 (omega arith) (omega arith) refl refl
  decode-r_encode_R RiOp.and i = decode-r_word RiOp.and 7 0 (omega arith) (omega arith) refl refl
  decode-r_encode_R RiOp.sll i = decode-r_word RiOp.sll 1 0 (omega arith) (omega arith) refl refl
  decode-r_encode_R RiOp.srl i = decode-r_word RiOp.srl 5 0 (omega arith) (omega arith) refl refl
  decode-r_encode_R RiOp.sra i = decode-r_word RiOp.sra 5 32 (omega arith) (omega arith) refl refl
  decode-r_encode_R RiOp.slt i = decode-r_word RiOp.slt 2 0 (omega arith) (omega arith) refl refl
  decode-r_encode_R RiOp.sltu i = decode-r_word RiOp.sltu 3 0 (omega arith) (omega arith) refl refl
  decode-r_encode_R RiOp.mul i = decode-r_word RiOp.mul 0 1 (omega arith) (omega arith) refl refl
  decode-r_encode_R _ i = absurd i
