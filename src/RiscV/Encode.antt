-- ===== src/RiscV/Encode.antt =====
-- src/arch/riscv.c: r_extract_bits, r_hi, r_lo and one encoder for each instruction format.
use rvcc.Prelude.{ℕ, ◌-◌, ◌*◌, ◌/◌, ◌%◌, ◌^◌, Bool, not, ◌||◌, ltb, ◌==◌, if◌then◌else◌}
use rvcc.Result.{Result, ok, err, ◌>>=◌, Error}
use rvcc.Word.{add32, sub32, neg32, shl32, sar32, mask32, slt32}
use rvcc.RiscV.Opcode.{RiOp, ri_op}

-- Copies the bits i_start to i_end of `imm` to the places d_start to d_end.
unfoldable pub r_extract_bits : ℕ → ℕ → ℕ → ℕ → ℕ → Result ℕ
r_extract_bits imm i_start i_end d_start d_end =
    if not (d_end - d_start == i_end - i_start) || ltb i_end i_start || ltb d_end d_start
    then err Error.invalid_bit_copy
    else ok (shl32 (mask32 (sar32 imm i_start) (2 * 2 ^ (i_end - i_start))) d_start)

-- val & (1 << 11), as a test
abbrev pub bit_11 : ℕ → Bool
bit_11 val = not (val / 2 ^ 11 % 2 == 0)

unfoldable pub r_hi : ℕ → ℕ
r_hi val = if bit_11 val then add32 val 4096 else val

unfoldable pub r_lo : ℕ → ℕ
r_lo val = if bit_11 val then sub32 (mask32 val 4096) 4096 else mask32 val 4096

-- imm > high || imm < -low
abbrev pub outside : ℕ → ℕ → ℕ → Bool
outside high low imm = slt32 high imm || slt32 imm (neg32 low)

-- if (imm < 0) { imm += 4096; imm &= (1 << 13) - 1; }
abbrev pub twelve_bits : ℕ → ℕ
twelve_bits imm = if slt32 imm 0 then mask32 (add32 imm 4096) (2 ^ 13) else imm

unfoldable pub r_encode_R : RiOp → ℕ → ℕ → ℕ → ℕ
r_encode_R op rd rs1 rs2 =
    add32 (add32 (add32 (ri_op op) (shl32 rd 7)) (shl32 rs1 15)) (shl32 rs2 20)

unfoldable pub r_encode_I : RiOp → ℕ → ℕ → ℕ → Result ℕ
r_encode_I op rd rs1 imm =
    if outside 2047 2048 imm
    then err Error.offset_too_large
    else ok
        (add32 (add32 (add32 (ri_op op) (shl32 rd 7)) (shl32 rs1 15)) (shl32 (twelve_bits imm) 20))

unfoldable pub r_encode_S : RiOp → ℕ → ℕ → ℕ → Result ℕ
unfolding r_extract_bits
r_encode_S op rs1 rs2 imm = if outside 2047 2048 imm then err Error.offset_too_large else do
  low ← r_extract_bits (twelve_bits imm) 0 4 7 11
  high ← r_extract_bits (twelve_bits imm) 5 11 25 31
  ok (add32 (add32 (add32 (add32 (ri_op op) (shl32 rs1 15)) (shl32 rs2 20)) low) high)

unfoldable pub r_encode_B : RiOp → ℕ → ℕ → ℕ → Result ℕ
unfolding r_extract_bits
r_encode_B op rs1 rs2 imm = if outside 4095 4096 imm then err Error.offset_too_large else do
  let sign = if slt32 imm 0 then 1 else 0
  eleven ← r_extract_bits imm 11 11 7 7
  low ← r_extract_bits imm 1 4 8 11
  high ← r_extract_bits imm 5 10 25 30
  let head = add32 (add32 (ri_op op) (shl32 rs1 15)) (shl32 rs2 20)
  ok (add32 (add32 (add32 (add32 head eleven) low) high) (shl32 sign 31))

unfoldable pub r_encode_J : RiOp → ℕ → ℕ → Result ℕ
unfolding r_extract_bits
r_encode_J op rd offset = do
  let sign = if slt32 offset 0 then 1 else 0
  let imm = if slt32 offset 0 then sub32 (shl32 1 21) (neg32 offset) else offset
  low ← r_extract_bits imm 1 10 21 30
  eleven ← r_extract_bits imm 11 11 20 20
  middle ← r_extract_bits imm 12 19 12 19
  let head = add32 (ri_op op) (shl32 rd 7)
  ok (add32 (add32 (add32 (add32 head low) eleven) middle) (shl32 sign 31))

unfoldable pub r_encode_U : RiOp → ℕ → ℕ → Result ℕ
unfolding r_extract_bits
r_encode_U op rd imm = do
  high ← r_extract_bits imm 12 31 12 31
  ok (add32 (add32 (ri_op op) (shl32 rd 7)) high)
