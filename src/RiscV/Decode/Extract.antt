-- ===== src/RiscV/Decode/Extract.antt =====
-- r_extract_bits: it moves a run of bits, the sign of its argument aside.
use rvcc.Prelude.{ℕ, ◌*◌, ◌/◌, ◌%◌, ◌^◌, ◌≡◌, arith}
use rvcc.Result.{ok}
use rvcc.Word.{IsWord}
use rvcc.RiscV.Encode.{r_extract_bits}

-- A run of bits below the copies of the sign.
abbrev pub bits : ℕ → ℕ → ℕ → ℕ
bits imm start count = imm / 2 ^ start % 2 ^ count

module _ (imm : ℕ) (w : IsWord imm) where
  pub extract_0_4 : r_extract_bits imm 0 4 7 11 ≡ ok (bits imm 0 5 * 2 ^ 7)
  unfolding r_extract_bits
  extract_0_4 = ground arith

  pub extract_5_11 : r_extract_bits imm 5 11 25 31 ≡ ok (bits imm 5 7 * 2 ^ 25)
  unfolding r_extract_bits
  extract_5_11 = ground arith

  pub extract_11_to_7 : r_extract_bits imm 11 11 7 7 ≡ ok (bits imm 11 1 * 2 ^ 7)
  unfolding r_extract_bits
  extract_11_to_7 = ground arith

  pub extract_1_4 : r_extract_bits imm 1 4 8 11 ≡ ok (bits imm 1 4 * 2 ^ 8)
  unfolding r_extract_bits
  extract_1_4 = ground arith

  pub extract_5_10 : r_extract_bits imm 5 10 25 30 ≡ ok (bits imm 5 6 * 2 ^ 25)
  unfolding r_extract_bits
  extract_5_10 = ground arith

  pub extract_1_10 : r_extract_bits imm 1 10 21 30 ≡ ok (bits imm 1 10 * 2 ^ 21)
  unfolding r_extract_bits
  extract_1_10 = ground arith

  pub extract_11_to_20 : r_extract_bits imm 11 11 20 20 ≡ ok (bits imm 11 1 * 2 ^ 20)
  unfolding r_extract_bits
  extract_11_to_20 = ground arith

  pub extract_12_19 : r_extract_bits imm 12 19 12 19 ≡ ok (bits imm 12 8 * 2 ^ 12)
  unfolding r_extract_bits
  extract_12_19 = ground arith

  pub extract_12_31 : r_extract_bits imm 12 31 12 31 ≡ ok (bits imm 12 20 * 2 ^ 12)
  unfolding r_extract_bits
  extract_12_31 = ground arith
