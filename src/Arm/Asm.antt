-- ===== src/Arm/Asm.antt =====
-- src/arch/arm.c: one function for each instruction, a_swi to a_teq.
use rvcc.Prelude.{ℕ, if◌then◌else◌}
use rvcc.Result.{Result, ok}
use rvcc.Word.{add32, neg32, shl32, slt32}
use rvcc.Arm.Opcode.{ArOp, ArCond, ar_op, a_r8}
use rvcc.Arm.Encode.{a_encode, a_mov, a_transfer, branch_field}

unfoldable pub a_swi : Result ℕ
a_swi = ok (a_encode ArCond.al 240 0 0 0)

unfoldable pub a_and_i : ArCond → ℕ → ℕ → ℕ → Result ℕ
a_and_i cond rd rs imm = a_mov cond 1 ArOp.and 0 rs rd imm

unfoldable pub a_or_i : ArCond → ℕ → ℕ → ℕ → Result ℕ
a_or_i cond rd rs imm = a_mov cond 1 ArOp.orr 0 rs rd imm

unfoldable pub a_and_r : ArCond → ℕ → ℕ → ℕ → Result ℕ
a_and_r cond rd rs rm = a_mov cond 0 ArOp.and 0 rs rd rm

unfoldable pub a_or_r : ArCond → ℕ → ℕ → ℕ → Result ℕ
a_or_r cond rd rs rm = a_mov cond 0 ArOp.orr 0 rs rd rm

unfoldable pub a_mov_i : ArCond → ℕ → ℕ → Result ℕ
a_mov_i cond rd imm = a_mov cond 1 ArOp.mov 0 0 rd imm

unfoldable pub a_mov_r : ArCond → ℕ → ℕ → Result ℕ
a_mov_r cond rd rs = a_mov cond 0 ArOp.mov 0 0 rd rs

unfoldable pub a_srl : ArCond → ℕ → ℕ → ℕ → Result ℕ
unfolding ar_op
a_srl cond rd rm rs =
    ok (a_encode cond (shl32 (ar_op ArOp.mov) 1) 0 rd (add32 (add32 (add32 rm 16) 32) (shl32 rs 8)))

unfoldable pub a_sll : ArCond → ℕ → ℕ → ℕ → Result ℕ
unfolding ar_op
a_sll cond rd rm rs =
    ok (a_encode cond (shl32 (ar_op ArOp.mov) 1) 0 rd (add32 (add32 rm 16) (shl32 rs 8)))

unfoldable pub a_add_i : ArCond → ℕ → ℕ → ℕ → Result ℕ
a_add_i cond rd rs imm =
    if slt32 imm 0
    then a_mov cond 1 ArOp.sub 0 rs rd (neg32 imm)
    else a_mov cond 1 ArOp.add 0 rs rd imm

unfoldable pub a_sub_i : ArCond → ℕ → ℕ → ℕ → Result ℕ
a_sub_i cond rd rs imm = a_mov cond 1 ArOp.sub 0 rs rd imm

unfoldable pub a_add_r : ArCond → ℕ → ℕ → ℕ → Result ℕ
a_add_r cond rd rs ro = a_mov cond 0 ArOp.add 0 rs rd ro

unfoldable pub a_sub_r : ArCond → ℕ → ℕ → ℕ → Result ℕ
a_sub_r cond rd rs ro = a_mov cond 0 ArOp.sub 0 rs rd ro

unfoldable pub a_zero : ℕ → Result ℕ
unfolding a_mov_i
a_zero rd = a_mov_i ArCond.al rd 0

unfoldable pub a_nop : Result ℕ
unfolding a_mov_r
a_nop = a_mov_r ArCond.al a_r8 a_r8

unfoldable pub a_lw : ArCond → ℕ → ℕ → ℕ → Result ℕ
a_lw cond rd rn ofs = a_transfer cond 1 4 rn rd ofs

unfoldable pub a_lb : ArCond → ℕ → ℕ → ℕ → Result ℕ
a_lb cond rd rn ofs = a_transfer cond 1 1 rn rd ofs

unfoldable pub a_sw : ArCond → ℕ → ℕ → ℕ → Result ℕ
a_sw cond rd rn ofs = a_transfer cond 0 4 rn rd ofs

unfoldable pub a_sb : ArCond → ℕ → ℕ → ℕ → Result ℕ
a_sb cond rd rn ofs = a_transfer cond 0 1 rn rd ofs

unfoldable pub a_bx : ArCond → ℕ → Result ℕ
a_bx cond rd = ok (a_encode cond 18 15 15 (add32 rd 241))

unfoldable pub a_b : ArCond → ℕ → Result ℕ
a_b cond ofs = ok (add32 (a_encode cond 160 0 0 0) (branch_field ofs))

unfoldable pub a_bl : ArCond → ℕ → Result ℕ
a_bl cond ofs = ok (add32 (a_encode cond 176 0 0 0) (branch_field ofs))

unfoldable pub a_blx : ArCond → ℕ → Result ℕ
a_blx cond rd = ok (a_encode cond 18 15 15 (add32 rd 3888))

unfoldable pub a_mul : ArCond → ℕ → ℕ → ℕ → Result ℕ
a_mul cond rd r1 r2 = ok (a_encode cond 0 rd 0 (add32 (add32 (shl32 r1 8) 144) r2))

-- a_rsb_i(cond, rd, imm, rn) reads `rd` and writes `rn`.
unfoldable pub a_rsb_i : ArCond → ℕ → ℕ → ℕ → Result ℕ
a_rsb_i cond rd imm rn = a_mov cond 1 ArOp.rsb 0 rd rn imm

unfoldable pub a_cmp_r : ArCond → ℕ → ℕ → ℕ → Result ℕ
a_cmp_r cond rd r1 r2 = a_mov cond 0 ArOp.cmp 1 r1 rd r2

unfoldable pub a_teq : ℕ → Result ℕ
a_teq rd = a_mov ArCond.al 1 ArOp.teq 1 rd 0 0
