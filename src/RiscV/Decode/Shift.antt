-- ===== src/RiscV/Decode/Shift.antt =====
-- Shifts by a constant: r_encode_I with a number of places.
use rvcc.Prelude.{ℕ, ◌+◌, ◌*◌, ◌^◌, ◌<◌, ◌≡◌, refl, ◌∙◌, some, false, arith}
use rvcc.Result.{ok}
use rvcc.Word.{add32, shl32}
use rvcc.RiscV.Opcode.{RiOp, ri_op}
use rvcc.RiscV.Encode.{r_encode_I, outside, twelve_bits}
use rvcc.RiscV.Isa.{i_type, decode_fields, rd_field, rs1_field, rs2_field}
use rvcc.RiscV.Decode.Fields.{IsRegister, EncodesTo, decode_at}

abbrev pub IsShiftOp : RiOp → Type 0
IsShiftOp RiOp.slli = Unit
IsShiftOp RiOp.srli = Unit
IsShiftOp RiOp.srai = Unit
IsShiftOp _ = ⊥

module _ (rd rs1 amount : ℕ) (d : IsRegister rd) (s1 : IsRegister rs1) (places : amount < 32) where
  abbrev shift_word : ℕ → ℕ
  shift_word op = add32 (add32 (add32 op (shl32 rd 7)) (shl32 rs1 15)) (shl32 amount 20)

  amount-in_range : outside 2047 2048 amount ≡ false
  amount-in_range = ground arith

  twelve_bits-amount : twelve_bits amount ≡ amount
  twelve_bits-amount = ground arith

  r_encode_I-shift : (op : RiOp) → r_encode_I op rd rs1 amount ≡ ok (shift_word (ri_op op))
  unfolding r_encode_I
  r_encode_I-shift op = rw amount-in_range λ i. ok (
      add32 (add32 (add32 (ri_op op) (shl32 rd 7)) (shl32 rs1 15))
        (shl32 (twelve_bits-amount i) 20))

  decode-shift_word :
      (op : RiOp) (funct3 funct7 : ℕ)
      → funct3 < 8
      → funct7 < 128
      → ri_op op ≡ 0x13 + funct3 * 2 ^ 12 + funct7 * 2 ^ 25
      → ((w : ℕ)
          → decode_fields 0x13 funct3 funct7 w
            ≡ some (i_type op (rd_field w) (rs1_field w) (rs2_field w)))
      → EncodesTo (r_encode_I op rd rs1 amount) (i_type op rd rs1 amount)
  decode-shift_word op funct3 funct7 f3 f7 e known =
      let w = shift_word (ri_op op) in
      let d' : rd_field w ≡ rd = omega (arith, e) in
      let s1' : rs1_field w ≡ rs1 = omega (arith, e) in
      let amount' : rs2_field w ≡ amount = omega (arith, e) in
      (
        w,
        r_encode_I-shift op,
        omega arith,
        decode_at {opcode = 0x13} {funct3 = funct3} {funct7 = funct7} w (omega (arith, e))
              (omega (arith, e)) (omega (arith, e))
            ∙ (known w ∙ λ i. some (i_type op (d' i) (s1' i) (amount' i))),
      )

  -- With registers below 32 and a number of places below 32, every shift by a constant is encoded
  -- as a 32-bit word, and the word decodes to the instruction.
  pub decode-r_encode_I_shift :
      (op : RiOp) → IsShiftOp op → EncodesTo (r_encode_I op rd rs1 amount) (i_type op rd rs1 amount)
  unfolding ri_op decode_fields
  decode-r_encode_I_shift RiOp.slli i =
      decode-shift_word RiOp.slli 1 0 (omega arith) (omega arith) refl (λ w. refl)
  decode-r_encode_I_shift RiOp.srli i =
      decode-shift_word RiOp.srli 5 0 (omega arith) (omega arith) refl (λ w. refl)
  decode-r_encode_I_shift RiOp.srai i =
      decode-shift_word RiOp.srai 5 32 (omega arith) (omega arith) refl (λ w. refl)
  decode-r_encode_I_shift _ i = absurd i
