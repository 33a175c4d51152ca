-- ===== src/RiscV/HiLo.antt =====
-- src/arch/riscv.c: r_hi and r_lo split a value for lui or auipc and addi.
use rvcc.Prelude.{ℕ, ◌*◌, ◌/◌, ◌^◌, ◌≡◌, arith}
use rvcc.Word.{IsWord, add32}
use rvcc.RiscV.Encode.{r_hi, r_lo}
use rvcc.RiscV.Decode.Fields.{InRange}

-- For any 32-bit value, the upper twenty bits of r_hi and the signed value of r_lo add up to the
-- value, r_lo fits the immediate of addi, and r_hi is a 32-bit value.
pub hi_lo :
    (val : ℕ)
    → IsWord val
    → (add32 (r_hi val / 2 ^ 12 * 2 ^ 12) (r_lo val) ≡ val)
      × InRange 2047 2048 (r_lo val)
      × IsWord (r_hi val)
unfolding r_hi r_lo
hi_lo val w = (ground arith, (ground arith, ground arith), ground arith)

-- A value that addi holds is its own r_lo.
pub r_lo-small : (val : ℕ) → InRange 2047 2048 val → r_lo val ≡ val
unfolding r_lo
r_lo-small val (w, h) = ground arith
