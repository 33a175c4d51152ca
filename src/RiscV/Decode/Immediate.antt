-- ===== src/RiscV/Decode/Immediate.antt =====
-- Instructions with a 12-bit immediate: r_encode_I.
use rvcc.Prelude.{ℕ, ◌+◌, ◌*◌, ◌/◌, ◌%◌, ◌^◌, ◌<◌, ◌≡◌, refl, ap, ◌∙◌, some, arith}
use rvcc.Result.{ok}
use rvcc.Word.{add32, shl32}
use rvcc.RiscV.Opcode.{RiOp, ri_op}
use rvcc.RiscV.Encode.{r_encode_I, twelve_bits}
use rvcc.RiscV.Isa.{
  i_type, decode_fields, rd_field, rs1_field, funct7_field, sign_extend, i_immediate,
}
use rvcc.RiscV.Decode.Fields.{IsRegister, InRange, EncodesTo, decode_at}

-- addi and its like but for the shifts, the loads and jalr.
abbrev pub IsImmediateOp : RiOp → Type 0
IsImmediateOp RiOp.addi = Unit
IsImmediateOp RiOp.xori = Unit
IsImmediateOp RiOp.ori = Unit
IsImmediateOp RiOp.andi = Unit
IsImmediateOp RiOp.slti = Unit
IsImmediateOp RiOp.sltiu = Unit
IsImmediateOp RiOp.lb = Unit
IsImmediateOp RiOp.lh = Unit
IsImmediateOp RiOp.lw = Unit
IsImmediateOp RiOp.lbu = Unit
IsImmediateOp RiOp.lhu = Unit
IsImmediateOp RiOp.jalr = Unit
IsImmediateOp _ = ⊥

-- The twelve bits that go into the word are those of the immediate, and give it back.
pub twelve_bits-low : (imm : ℕ) → InRange 2047 2048 imm → twelve_bits imm ≡ imm % 2 ^ 12
twelve_bits-low imm (w, h) = ground arith

pub sign_extend-low : (imm : ℕ) → InRange 2047 2048 imm → sign_extend 12 (imm % 2 ^ 12) ≡ imm
sign_extend-low imm (w, h) = ground arith

module _ (rd rs1 imm : ℕ) (d : IsRegister rd) (s1 : IsRegister rs1)
    (range : InRange 2047 2048 imm) where
  abbrev i_word : ℕ → ℕ
  i_word op = add32 (add32 (add32 op (shl32 rd 7)) (shl32 rs1 15)) (shl32 (twelve_bits imm) 20)

  r_encode_I-in_range : (op : RiOp) → r_encode_I op rd rs1 imm ≡ ok (i_word (ri_op op))
  unfolding r_encode_I
  r_encode_I-in_range op = rw range.1

  decode-i_word :
      (op : RiOp) (opcode funct3 : ℕ)
      → opcode < 128
      → funct3 < 8
      → ri_op op ≡ opcode + funct3 * 2 ^ 12
      → ((w : ℕ)
          → decode_fields opcode funct3 (funct7_field w) w
            ≡ some (i_type op (rd_field w) (rs1_field w) (i_immediate w)))
      → EncodesTo (r_encode_I op rd rs1 imm) (i_type op rd rs1 imm)
  decode-i_word op opcode funct3 o f3 e known =
      let w = i_word (ri_op op) in
      let low = twelve_bits-low imm range in
      let d' : rd_field w ≡ rd = omega (arith, e, low) in
      let s1' : rs1_field w ≡ rs1 = omega (arith, e, low) in
      let field : w / 2 ^ 20 % 2 ^ 12 ≡ imm % 2 ^ 12 = omega (arith, e, low) in
      let imm' : i_immediate w ≡ imm = ap (sign_extend 12) field ∙ sign_extend-low imm range in
      (
        w,
        r_encode_I-in_range op,
        omega arith,
        decode_at {opcode = opcode} {funct3 = funct3} {funct7 = funct7_field w} w
              (omega (arith, e, low)) (omega (arith, e, low)) refl
            ∙ (known w ∙ λ i. some (i_type op (d' i) (s1' i) (imm' i))),
      )

  -- With registers below 32 and an immediate from -2048 to 2047, every operation on an
  -- immediate but the shifts, every load and jalr is encoded as a 32-bit word, and the word decodes to the
  -- instruction.
  pub decode-r_encode_I :
      (op : RiOp) → IsImmediateOp op → EncodesTo (r_encode_I op rd rs1 imm) (i_type op rd rs1 imm)
  unfolding ri_op decode_fields
  decode-r_encode_I RiOp.addi i =
      decode-i_word RiOp.addi 0x13 0 (omega arith) (omega arith) refl (λ w. refl)
  decode-r_encode_I RiOp.xori i =
      decode-i_word RiOp.xori 0x13 4 (omega arith) (omega arith) refl (λ w. refl)
  decode-r_encode_I RiOp.ori i =
      decode-i_word RiOp.ori 0x13 6 (omega arith) (omega arith) refl (λ w. refl)
  decode-r_encode_I RiOp.andi i =
      decode-i_word RiOp.andi 0x13 7 (omega arith) (omega arith) refl (λ w. refl)
  decode-r_encode_I RiOp.slti i =
      decode-i_word RiOp.slti 0x13 2 (omega arith) (omega arith) refl (λ w. refl)
  decode-r_encode_I RiOp.sltiu i =
      decode-i_word RiOp.sltiu 0x13 3 (omega arith) (omega arith) refl (λ w. refl)
  decode-r_encode_I RiOp.lb i =
      decode-i_word RiOp.lb 0x03 0 (omega arith) (omega arith) refl (λ w. refl)
  decode-r_encode_I RiOp.lh i =
      decode-i_word RiOp.lh 0x03 1 (omega arith) (omega arith) refl (λ w. refl)
  decode-r_encode_I RiOp.lw i =
      decode-i_word RiOp.lw 0x03 2 (omega arith) (omega arith) refl (λ w. refl)
  decode-r_encode_I RiOp.lbu i =
      decode-i_word RiOp.lbu 0x03 4 (omega arith) (omega arith) refl (λ w. refl)
  decode-r_encode_I RiOp.lhu i =
      decode-i_word RiOp.lhu 0x03 5 (omega arith) (omega arith) refl (λ w. refl)
  decode-r_encode_I RiOp.jalr i =
      decode-i_word RiOp.jalr 0x67 0 (omega arith) (omega arith) refl (λ w. refl)
  decode-r_encode_I _ i = absurd i
