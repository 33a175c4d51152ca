-- ===== src/RiscV/Decode/Formats.antt =====
-- src/arch/riscv.c: the six encoders, by what their instructions have in common.
use rvcc.Prelude.{ℕ, ◌*◌, ◌/◌, ◌^◌, ◌<◌, ◌≡◌, some}
use rvcc.Word.{IsWord}
use rvcc.RiscV.Opcode.{RiOp}
use rvcc.RiscV.Encode.{r_encode_R, r_encode_I, r_encode_S, r_encode_B, r_encode_J, r_encode_U}
use rvcc.RiscV.Isa.{decode, r_type, i_type, s_type, b_type, u_type, j_type}
use rvcc.RiscV.Decode.Fields.{IsRegister, InRange, EncodesTo}
use rvcc.RiscV.Decode.Register.{IsRegisterOp, decode-r_encode_R}
use rvcc.RiscV.Decode.Immediate.{IsImmediateOp, decode-r_encode_I}
use rvcc.RiscV.Decode.Shift.{IsShiftOp, decode-r_encode_I_shift}
use rvcc.RiscV.Decode.Store.{IsStoreOp, decode-r_encode_S}
use rvcc.RiscV.Decode.Branch.{IsBranchOp, IsBranchOffset, decode-r_encode_B}
use rvcc.RiscV.Decode.Upper.{IsUpperOp, IsJumpOffset, decode-r_encode_U, decode-r_encode_J}

module _ (rd rs1 rs2 : ℕ) (d : IsRegister rd) (s1 : IsRegister rs1) (s2 : IsRegister rs2) where
  -- With registers below 32 and an immediate from -2048 to 2047: what r_encode_R makes of an
  -- instruction on three registers decodes to that instruction, and what r_encode_I makes of an
  -- operation on an immediate other than a shift, a load or jalr, and of a shift by 0 to 31
  -- places, and r_encode_S of a store, is a 32-bit word that decodes to the instruction.
  pub decode-data_formats :
      (imm amount : ℕ) (on_registers on_immediate shift store : RiOp)
      → InRange 2047 2048 imm
      → amount < 32
      → IsRegisterOp on_registers
      → IsImmediateOp on_immediate
      → IsShiftOp shift
      → IsStoreOp store
      → (decode (r_encode_R on_registers rd rs1 rs2) ≡ some (r_type on_registers rd rs1 rs2))
        × EncodesTo (r_encode_I on_immediate rd rs1 imm) (i_type on_immediate rd rs1 imm)
        × EncodesTo (r_encode_I shift rd rs1 amount) (i_type shift rd rs1 amount)
        × EncodesTo (r_encode_S store rs1 rs2 imm) (s_type store rs1 rs2 imm)
  decode-data_formats imm amount on_registers on_immediate shift store range places r i h s = (
    decode-r_encode_R rd rs1 rs2 d s1 s2 on_registers r,
    decode-r_encode_I rd rs1 imm d s1 range on_immediate i,
    decode-r_encode_I_shift rd rs1 amount d s1 places shift h,
    decode-r_encode_S rs1 rs2 imm s1 s2 range store s,
  )

  -- With registers below 32: a branch with an even offset from -4096 to 4094, jal with an even
  -- offset from -2^20 to 2^20 - 2, and lui or auipc with any 32-bit value are encoded as 32-bit
  -- words. They decode to the instruction, lui and auipc to that with the upper twenty bits of
  -- the value.
  pub decode-control_formats :
      (near far value : ℕ) (branch upper : RiOp)
      → IsBranchOffset near
      → IsJumpOffset far
      → IsWord value
      → IsBranchOp branch
      → IsUpperOp upper
      → EncodesTo (r_encode_B branch rs1 rs2 near) (b_type branch rs1 rs2 near)
        × EncodesTo (r_encode_J RiOp.jal rd far) (j_type RiOp.jal rd far)
        × EncodesTo (r_encode_U upper rd value) (u_type upper rd (value / 2 ^ 12 * 2 ^ 12))
  decode-control_formats near far value branch upper n f w b u = (
    decode-r_encode_B rs1 rs2 near s1 s2 n branch b,
    decode-r_encode_J rd far d f,
    decode-r_encode_U rd value d w upper u,
  )
