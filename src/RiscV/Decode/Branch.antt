-- ===== src/RiscV/Decode/Branch.antt =====
-- Branches: r_encode_B.
use rvcc.Prelude.{ℕ, ◌+◌, ◌*◌, ◌/◌, ◌%◌, ◌^◌, ◌<◌, ◌≡◌, refl, ap, ◌∙◌, some, arith, if◌then◌else◌}
use rvcc.Result.{Result, ok, err, ◌>>=◌, Error}
use rvcc.Word.{add32, shl32, slt32}
use rvcc.RiscV.Opcode.{RiOp, ri_op}
use rvcc.RiscV.Encode.{r_encode_B, outside}
use rvcc.RiscV.Isa.{
  b_type, decode_fields, rs1_field, rs2_field, funct7_field, sign_extend, b_immediate,
}
use rvcc.RiscV.Decode.Fields.{IsRegister, InRange, EncodesTo, decode_at}
use rvcc.RiscV.Decode.Extract.{bits, extract_11_to_7, extract_1_4, extract_5_10}

abbrev pub IsBranchOp : RiOp → Type 0
IsBranchOp RiOp.beq = Unit
IsBranchOp RiOp.bne = Unit
IsBranchOp RiOp.blt = Unit
IsBranchOp RiOp.bge = Unit
IsBranchOp RiOp.bltu = Unit
IsBranchOp RiOp.bgeu = Unit
IsBranchOp _ = ⊥

-- The offsets that a branch can hold: even, from -4096 to 4094.
abbrev pub IsBranchOffset : ℕ → Type 0
IsBranchOffset imm = InRange 4095 4096 imm × (imm % 2 ≡ 0)

module _ (rs1 rs2 imm : ℕ) (s1 : IsRegister rs1) (s2 : IsRegister rs2)
    (range : IsBranchOffset imm) where
  abbrev b_sign : ℕ
  b_sign = if slt32 imm 0 then 1 else 0

  b_sign-high : b_sign ≡ imm / 2 ^ 12 % 2
  b_sign-high = let h = range.0.1 in let w = range.0.0 in ground arith

  b_sign_extend : sign_extend 13 (imm % 2 ^ 13) ≡ imm
  b_sign_extend = let h = range.0.1 in let w = range.0.0 in ground arith

  abbrev b_word : ℕ → ℕ
  b_word op =
      add32
        (add32
          (add32 (add32 (add32 (add32 op (shl32 rs1 15)) (shl32 rs2 20)) (bits imm 11 1 * 2 ^ 7))
            (bits imm 1 4 * 2 ^ 8))
          (bits imm 5 6 * 2 ^ 25))
        (shl32 b_sign 31)

  abbrev b_checked : RiOp → Result ℕ → Result ℕ → Result ℕ → Result ℕ
  b_checked op eleven low high = if outside 4095 4096 imm then err Error.offset_too_large else do
    e ← eleven
    l ← low
    h ← high
    let head = add32 (add32 (ri_op op) (shl32 rs1 15)) (shl32 rs2 20)
    ok (add32 (add32 (add32 (add32 head e) l) h) (shl32 b_sign 31))

  r_encode_B-b_word : (op : RiOp) → r_encode_B op rs1 rs2 imm ≡ ok (b_word (ri_op op))
  unfolding r_encode_B
  r_encode_B-b_word op =
      let word = range.0.0 in
      (λ i.
        b_checked op (extract_11_to_7 imm word i) (extract_1_4 imm word i)
          (extract_5_10 imm word i))
      ∙ rw range.0.1

  decode-b_word :
      (op : RiOp) (funct3 : ℕ)
      → funct3 < 8
      → ri_op op ≡ 0x63 + funct3 * 2 ^ 12
      → ((w : ℕ)
          → decode_fields 0x63 funct3 (funct7_field w) w
            ≡ some (b_type op (rs1_field w) (rs2_field w) (b_immediate w)))
      → EncodesTo (r_encode_B op rs1 rs2 imm) (b_type op rs1 rs2 imm)
  decode-b_word op funct3 f3 e known =
      let w = b_word (ri_op op) in
      let sign : b_sign ≡ imm / 2 ^ 12 % 2 = b_sign-high in
      let even = range.1 in
      let s1' : rs1_field w ≡ rs1 = omega (arith, e, sign) in
      let s2' : rs2_field w ≡ rs2 = omega (arith, e, sign) in
      let field : w / 2 ^ 31 % 2 * 2 ^ 12
            + w / 2 ^ 7 % 2 * 2 ^ 11
            + w / 2 ^ 25 % 2 ^ 6 * 2 ^ 5
            + w / 2 ^ 8 % 2 ^ 4 * 2
          ≡ imm % 2 ^ 13 =
        omega (arith, e, sign, even) in
      let imm' : b_immediate w ≡ imm = ap (sign_extend 13) field ∙ b_sign_extend in
      (
        w,
        r_encode_B-b_word op,
        omega arith,
        decode_at {opcode = 0x63} {funct3 = funct3} {funct7 = funct7_field w} w
              (omega (arith, e, sign)) (omega (arith, e, sign)) refl
            ∙ (known w ∙ λ i. some (b_type op (s1' i) (s2' i) (imm' i))),
      )

  -- With registers below 32 and an even offset from -4096 to 4094, every branch is encoded as a
  -- 32-bit word, and the word decodes to the instruction.
  pub decode-r_encode_B :
      (op : RiOp) → IsBranchOp op → EncodesTo (r_encode_B op rs1 rs2 imm) (b_type op rs1 rs2 imm)
  unfolding ri_op decode_fields
  decode-r_encode_B RiOp.beq i = decode-b_word RiOp.beq 0 (omega arith) refl (λ w. refl)
  decode-r_encode_B RiOp.bne i = decode-b_word RiOp.bne 1 (omega arith) refl (λ w. refl)
  decode-r_encode_B RiOp.blt i = decode-b_word RiOp.blt 4 (omega arith) refl (λ w. refl)
  decode-r_encode_B RiOp.bge i = decode-b_word RiOp.bge 5 (omega arith) refl (λ w. refl)
  decode-r_encode_B RiOp.bltu i = decode-b_word RiOp.bltu 6 (omega arith) refl (λ w. refl)
  decode-r_encode_B RiOp.bgeu i = decode-b_word RiOp.bgeu 7 (omega arith) refl (λ w. refl)
  decode-r_encode_B _ i = absurd i
