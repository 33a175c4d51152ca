-- ===== src/Arm/Encode.antt =====
-- src/arch/arm.c: a_extract_bits, a_encode, and the encoders that the instructions share.
use rvcc.Prelude.{
  ℕ, zero, suc, ◌+◌, ◌-◌, ◌*◌, ◌^◌, true, false, not, ◌||◌, ltb, ◌==◌, if◌then◌else◌,
}
use rvcc.Result.{Result, ok, err, ◌>>=◌, Error}
use rvcc.Word.{add32, sub32, neg32, shl32, sar32, mask32, slt32}
use rvcc.Arm.Opcode.{ArOp, ar_op, ArCond, ar_cond}

unfoldable pub a_extract_bits : ℕ → ℕ → ℕ → ℕ → ℕ → Result ℕ
a_extract_bits imm i_start i_end d_start d_end =
    if not (d_end - d_start == i_end - i_start) || ltb i_end i_start || ltb d_end d_start
    then err Error.invalid_bit_copy
    else ok (shl32 (mask32 (sar32 imm i_start) (2 * 2 ^ (i_end - i_start))) d_start)

unfoldable pub a_encode : ArCond → ℕ → ℕ → ℕ → ℕ → ℕ
unfolding ar_cond
a_encode cond opcode rn rd op2 =
    add32
      (add32 (add32 (add32 (shl32 (ar_cond cond) 28) (shl32 opcode 20)) (shl32 rn 16))
        (shl32 rd 12))
      op2

-- while ((op2 & 3) == 0) { op2 = op2 >> 2; shift -= 1; }, for at most `fuel` rounds
unfoldable pub rotate_out : ℕ → ℕ → ℕ → ℕ × ℕ
rotate_out zero op2 shift = (op2, shift)
rotate_out (suc fuel) op2 shift = elim (mask32 op2 4 == 0) [
  | true ↦ rotate_out fuel (sar32 op2 2) (sub32 shift 1)
  | false ↦ (op2, shift)
]

-- What a_mov puts into the place of the operand: an eight-bit value and its rotation. A value with a
-- bit that is not 0 ends the loop within 16 rounds.
unfoldable pub shifter_operand : ℕ → Result ℕ
unfolding rotate_out
shifter_operand op2 =
    let (value, shift) = rotate_out 16 op2 16 in
    if slt32 255 op2
    then (if slt32 255 value
        then err Error.unable_to_represent_value
        else ok (add32 (shl32 shift 8) (mask32 value 256)))
    else ok (mask32 op2 256)

unfoldable pub a_mov : ArCond → ℕ → ArOp → ℕ → ℕ → ℕ → ℕ → Result ℕ
unfolding shifter_operand a_encode ar_op
a_mov cond io opcode s rn rd op2 = do
  operand ← shifter_operand op2
  ok (a_encode cond (add32 (add32 s (shl32 (ar_op opcode) 1)) (shl32 io 5)) rn rd operand)

unfoldable pub a_movw : ArCond → ℕ → ℕ → Result ℕ
unfolding a_encode a_extract_bits
a_movw cond rd imm = do
  low ← a_extract_bits imm 0 11 0 11
  high ← a_extract_bits imm 12 15 16 19
  ok (add32 (add32 (a_encode cond 48 0 rd 0) low) high)

unfoldable pub a_movt : ArCond → ℕ → ℕ → Result ℕ
unfolding a_encode a_extract_bits
a_movt cond rd imm = do
  low ← a_extract_bits (sar32 imm 16) 0 11 0 11
  high ← a_extract_bits (sar32 imm 16) 12 15 16 19
  ok (add32 (add32 (a_encode cond 52 0 rd 0) low) high)

unfoldable pub a_transfer : ArCond → ℕ → ℕ → ℕ → ℕ → ℕ → Result ℕ
unfolding a_encode
a_transfer cond l size rn rd ofs =
    let opcode = if size == 1 then 64 + 16 + 8 + l + 4 else 64 + 16 + 8 + l in
    if slt32 ofs 0
    then ok (a_encode cond (opcode - 8) rn rd (mask32 (neg32 ofs) 4096))
    else ok (a_encode cond opcode rn rd (mask32 ofs 4096))

-- ((ofs - 8) >> 2) & 16777215
unfoldable pub branch_field : ℕ → ℕ
branch_field ofs = mask32 (sar32 (sub32 ofs 8) 2) 16777216
