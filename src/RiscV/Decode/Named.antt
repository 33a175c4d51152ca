-- ===== src/RiscV/Decode/Named.antt =====
-- src/arch/riscv.c: the functions that are named after instructions, where the backend uses them.
use rvcc.Prelude.{ℕ, ◌*◌, ◌/◌, ◌^◌}
use rvcc.Word.{IsWord}
use rvcc.RiscV.Opcode.{RiOp}
use rvcc.RiscV.Asm.{r_addi, r_lw, r_sw, r_jal, r_jalr, r_beq, r_bne, r_lui, r_auipc}
use rvcc.RiscV.Isa.{i_type, s_type, b_type, u_type, j_type}
use rvcc.RiscV.Decode.Fields.{IsRegister, InRange, EncodesTo}
use rvcc.RiscV.Decode.Immediate.{decode-r_encode_I}
use rvcc.RiscV.Decode.Store.{decode-r_encode_S}
use rvcc.RiscV.Decode.Branch.{IsBranchOffset, decode-r_encode_B}
use rvcc.RiscV.Decode.Upper.{IsJumpOffset, decode-r_encode_U, decode-r_encode_J}

pub addi-EncodesTo :
    (rd rs1 imm : ℕ)
    → IsRegister rd
    → IsRegister rs1
    → InRange 2047 2048 imm
    → EncodesTo (r_addi rd rs1 imm) (i_type RiOp.addi rd rs1 imm)
unfolding r_addi
addi-EncodesTo rd rs1 imm d s h = decode-r_encode_I rd rs1 imm d s h RiOp.addi tt

pub jal-EncodesTo :
    (rd imm : ℕ)
    → IsRegister rd
    → IsJumpOffset imm
    → EncodesTo (r_jal rd imm) (j_type RiOp.jal rd imm)
unfolding r_jal
jal-EncodesTo rd imm d h = decode-r_encode_J rd imm d h

pub lw-EncodesTo :
    (rd rs1 imm : ℕ)
    → IsRegister rd
    → IsRegister rs1
    → InRange 2047 2048 imm
    → EncodesTo (r_lw rd rs1 imm) (i_type RiOp.lw rd rs1 imm)
unfolding r_lw
lw-EncodesTo rd rs1 imm d s h = decode-r_encode_I rd rs1 imm d s h RiOp.lw tt

pub jalr-EncodesTo :
    (rd rs1 imm : ℕ)
    → IsRegister rd
    → IsRegister rs1
    → InRange 2047 2048 imm
    → EncodesTo (r_jalr rd rs1 imm) (i_type RiOp.jalr rd rs1 imm)
unfolding r_jalr
jalr-EncodesTo rd rs1 imm d s h = decode-r_encode_I rd rs1 imm d s h RiOp.jalr tt

-- The first register of r_sw holds the value, the second the address.
pub sw-EncodesTo :
    (rd rs1 imm : ℕ)
    → IsRegister rd
    → IsRegister rs1
    → InRange 2047 2048 imm
    → EncodesTo (r_sw rd rs1 imm) (s_type RiOp.sw rs1 rd imm)
unfolding r_sw
sw-EncodesTo rd rs1 imm d s h = decode-r_encode_S rs1 rd imm s d h RiOp.sw tt

pub beq-EncodesTo :
    (rs1 rs2 imm : ℕ)
    → IsRegister rs1
    → IsRegister rs2
    → IsBranchOffset imm
    → EncodesTo (r_beq rs1 rs2 imm) (b_type RiOp.beq rs1 rs2 imm)
unfolding r_beq
beq-EncodesTo rs1 rs2 imm d s h = decode-r_encode_B rs1 rs2 imm d s h RiOp.beq tt

pub bne-EncodesTo :
    (rs1 rs2 imm : ℕ)
    → IsRegister rs1
    → IsRegister rs2
    → IsBranchOffset imm
    → EncodesTo (r_bne rs1 rs2 imm) (b_type RiOp.bne rs1 rs2 imm)
unfolding r_bne
bne-EncodesTo rs1 rs2 imm d s h = decode-r_encode_B rs1 rs2 imm d s h RiOp.bne tt

pub lui-EncodesTo :
    (rd imm : ℕ)
    → IsRegister rd
    → IsWord imm
    → EncodesTo (r_lui rd imm) (u_type RiOp.lui rd (imm / 2 ^ 12 * 2 ^ 12))
unfolding r_lui
lui-EncodesTo rd imm d w = decode-r_encode_U rd imm d w RiOp.lui tt

pub auipc-EncodesTo :
    (rd imm : ℕ)
    → IsRegister rd
    → IsWord imm
    → EncodesTo (r_auipc rd imm) (u_type RiOp.auipc rd (imm / 2 ^ 12 * 2 ^ 12))
unfolding r_auipc
auipc-EncodesTo rd imm d w = decode-r_encode_U rd imm d w RiOp.auipc tt
