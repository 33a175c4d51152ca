-- ===== src/RiscV/Asm.antt =====
-- src/arch/riscv.c: one function for each instruction, r_add to r_mul.
use rvcc.Prelude.{ℕ}
use rvcc.Result.{Result, ok}
use rvcc.RiscV.Opcode.{RiOp, r_zero}
use rvcc.RiscV.Encode.{r_encode_R, r_encode_I, r_encode_S, r_encode_B, r_encode_J, r_encode_U}

unfoldable pub r_add : ℕ → ℕ → ℕ → Result ℕ
r_add rd rs1 rs2 = ok (r_encode_R RiOp.add rd rs1 rs2)

unfoldable pub r_sub : ℕ → ℕ → ℕ → Result ℕ
r_sub rd rs1 rs2 = ok (r_encode_R RiOp.sub rd rs1 rs2)

unfoldable pub r_xor : ℕ → ℕ → ℕ → Result ℕ
r_xor rd rs1 rs2 = ok (r_encode_R RiOp.xor rd rs1 rs2)

unfoldable pub r_or : ℕ → ℕ → ℕ → Result ℕ
r_or rd rs1 rs2 = ok (r_encode_R RiOp.or rd rs1 rs2)

unfoldable pub r_and : ℕ → ℕ → ℕ → Result ℕ
r_and rd rs1 rs2 = ok (r_encode_R RiOp.and rd rs1 rs2)

unfoldable pub r_sll : ℕ → ℕ → ℕ → Result ℕ
r_sll rd rs1 rs2 = ok (r_encode_R RiOp.sll rd rs1 rs2)

unfoldable pub r_srl : ℕ → ℕ → ℕ → Result ℕ
r_srl rd rs1 rs2 = ok (r_encode_R RiOp.srl rd rs1 rs2)

unfoldable pub r_sra : ℕ → ℕ → ℕ → Result ℕ
r_sra rd rs1 rs2 = ok (r_encode_R RiOp.sra rd rs1 rs2)

unfoldable pub r_slt : ℕ → ℕ → ℕ → Result ℕ
r_slt rd rs1 rs2 = ok (r_encode_R RiOp.slt rd rs1 rs2)

unfoldable pub r_sltu : ℕ → ℕ → ℕ → Result ℕ
r_sltu rd rs1 rs2 = ok (r_encode_R RiOp.sltu rd rs1 rs2)

unfoldable pub r_mul : ℕ → ℕ → ℕ → Result ℕ
r_mul rd rs1 rs2 = ok (r_encode_R RiOp.mul rd rs1 rs2)

unfoldable pub r_addi : ℕ → ℕ → ℕ → Result ℕ
r_addi rd rs1 imm = r_encode_I RiOp.addi rd rs1 imm

unfoldable pub r_xori : ℕ → ℕ → ℕ → Result ℕ
r_xori rd rs1 imm = r_encode_I RiOp.xori rd rs1 imm

unfoldable pub r_ori : ℕ → ℕ → ℕ → Result ℕ
r_ori rd rs1 imm = r_encode_I RiOp.ori rd rs1 imm

unfoldable pub r_andi : ℕ → ℕ → ℕ → Result ℕ
r_andi rd rs1 imm = r_encode_I RiOp.andi rd rs1 imm

unfoldable pub r_slli : ℕ → ℕ → ℕ → Result ℕ
r_slli rd rs1 imm = r_encode_I RiOp.slli rd rs1 imm

unfoldable pub r_srli : ℕ → ℕ → ℕ → Result ℕ
r_srli rd rs1 imm = r_encode_I RiOp.srli rd rs1 imm

unfoldable pub r_srai : ℕ → ℕ → ℕ → Result ℕ
r_srai rd rs1 imm = r_encode_I RiOp.srai rd rs1 imm

unfoldable pub r_slti : ℕ → ℕ → ℕ → Result ℕ
r_slti rd rs1 imm = r_encode_I RiOp.slti rd rs1 imm

unfoldable pub r_sltiu : ℕ → ℕ → ℕ → Result ℕ
r_sltiu rd rs1 imm = r_encode_I RiOp.sltiu rd rs1 imm

unfoldable pub r_lb : ℕ → ℕ → ℕ → Result ℕ
r_lb rd rs1 imm = r_encode_I RiOp.lb rd rs1 imm

unfoldable pub r_lh : ℕ → ℕ → ℕ → Result ℕ
r_lh rd rs1 imm = r_encode_I RiOp.lh rd rs1 imm

unfoldable pub r_lw : ℕ → ℕ → ℕ → Result ℕ
r_lw rd rs1 imm = r_encode_I RiOp.lw rd rs1 imm

unfoldable pub r_lbu : ℕ → ℕ → ℕ → Result ℕ
r_lbu rd rs1 imm = r_encode_I RiOp.lbu rd rs1 imm

unfoldable pub r_lhu : ℕ → ℕ → ℕ → Result ℕ
r_lhu rd rs1 imm = r_encode_I RiOp.lhu rd rs1 imm

unfoldable pub r_jalr : ℕ → ℕ → ℕ → Result ℕ
r_jalr rd rs1 imm = r_encode_I RiOp.jalr rd rs1 imm

unfoldable pub r_sb : ℕ → ℕ → ℕ → Result ℕ
r_sb rd rs1 imm = r_encode_S RiOp.sb rs1 rd imm

unfoldable pub r_sh : ℕ → ℕ → ℕ → Result ℕ
r_sh rd rs1 imm = r_encode_S RiOp.sh rs1 rd imm

unfoldable pub r_sw : ℕ → ℕ → ℕ → Result ℕ
r_sw rd rs1 imm = r_encode_S RiOp.sw rs1 rd imm

unfoldable pub r_beq : ℕ → ℕ → ℕ → Result ℕ
r_beq rs1 rs2 imm = r_encode_B RiOp.beq rs1 rs2 imm

unfoldable pub r_bne : ℕ → ℕ → ℕ → Result ℕ
r_bne rs1 rs2 imm = r_encode_B RiOp.bne rs1 rs2 imm

unfoldable pub r_blt : ℕ → ℕ → ℕ → Result ℕ
r_blt rs1 rs2 imm = r_encode_B RiOp.blt rs1 rs2 imm

unfoldable pub r_bge : ℕ → ℕ → ℕ → Result ℕ
r_bge rs1 rs2 imm = r_encode_B RiOp.bge rs1 rs2 imm

unfoldable pub r_bltu : ℕ → ℕ → ℕ → Result ℕ
r_bltu rs1 rs2 imm = r_encode_B RiOp.bltu rs1 rs2 imm

unfoldable pub r_bgeu : ℕ → ℕ → ℕ → Result ℕ
r_bgeu rs1 rs2 imm = r_encode_B RiOp.bgeu rs1 rs2 imm

unfoldable pub r_jal : ℕ → ℕ → Result ℕ
r_jal rd imm = r_encode_J RiOp.jal rd imm

unfoldable pub r_lui : ℕ → ℕ → Result ℕ
r_lui rd imm = r_encode_U RiOp.lui rd imm

unfoldable pub r_auipc : ℕ → ℕ → Result ℕ
r_auipc rd imm = r_encode_U RiOp.auipc rd imm

unfoldable pub r_ecall : Result ℕ
r_ecall = r_encode_I RiOp.ecall r_zero r_zero 0

unfoldable pub r_ebreak : Result ℕ
r_ebreak = r_encode_I RiOp.ebreak r_zero r_zero 1

unfoldable pub r_nop : Result ℕ
unfolding r_addi
r_nop = r_addi r_zero r_zero 0
