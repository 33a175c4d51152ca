-- ===== src/RiscV/Decode/Upper.antt =====
-- lui, auipc and jal: r_encode_U and r_encode_J.
use rvcc.Prelude.{ℕ, ◌+◌, ◌*◌, ◌/◌, ◌%◌, ◌^◌, ◌<◌, ◌≡◌, refl, ap, ◌∙◌, some, arith, if◌then◌else◌}
use rvcc.Result.{ok, ◌>>=◌}
use rvcc.Word.{IsWord, add32, sub32, neg32, shl32, slt32}
use rvcc.RiscV.Opcode.{RiOp, ri_op}
use rvcc.RiscV.Encode.{r_encode_U, r_encode_J}
use rvcc.RiscV.Isa.{
  u_type, j_type, decode_fields, rd_field, funct3_field, funct7_field, sign_extend, u_immediate,
  j_immediate,
}
use rvcc.RiscV.Decode.Fields.{IsRegister, InRange, EncodesTo, decode_at}
use rvcc.RiscV.Decode.Extract.{bits, extract_1_10, extract_11_to_20, extract_12_19, extract_12_31}

abbrev pub IsUpperOp : RiOp → Type 0
IsUpperOp RiOp.lui = Unit
IsUpperOp RiOp.auipc = Unit
IsUpperOp _ = ⊥

module _ (rd imm : ℕ) (d : IsRegister rd) (word : IsWord imm) where
  abbrev u_word : ℕ → ℕ
  u_word op = add32 (add32 op (shl32 rd 7)) (bits imm 12 20 * 2 ^ 12)

  r_encode_U-u_word : (op : RiOp) → r_encode_U op rd imm ≡ ok (u_word (ri_op op))
  unfolding r_encode_U
  r_encode_U-u_word op =
      ap (λ r. r >>= λ high. ok (add32 (add32 (ri_op op) (shl32 rd 7)) high))
        (extract_12_31 imm word)

  decode-u_word :
      (op : RiOp) (opcode : ℕ)
      → opcode < 128
      → ri_op op ≡ opcode
      → ((w : ℕ)
          → decode_fields opcode (funct3_field w) (funct7_field w) w
            ≡ some (u_type op (rd_field w) (u_immediate w)))
      → EncodesTo (r_encode_U op rd imm) (u_type op rd (imm / 2 ^ 12 * 2 ^ 12))
  decode-u_word op opcode o e known =
      let w = u_word (ri_op op) in
      let d' : rd_field w ≡ rd = omega (arith, e) in
      let imm' : u_immediate w ≡ imm / 2 ^ 12 * 2 ^ 12 = omega (arith, e) in
      (
        w,
        r_encode_U-u_word op,
        omega arith,
        decode_at {opcode = opcode} {funct3 = funct3_field w} {funct7 = funct7_field w} w
              (omega (arith, e)) refl refl
            ∙ (known w ∙ λ i. some (u_type op (d' i) (imm' i))),
      )

  -- With a register below 32 and any 32-bit value, lui and auipc are encoded as a 32-bit word,
  -- and the word decodes to the instruction with the upper twenty bits of the value.
  pub decode-r_encode_U :
      (op : RiOp)
      → IsUpperOp op
      → EncodesTo (r_encode_U op rd imm) (u_type op rd (imm / 2 ^ 12 * 2 ^ 12))
  unfolding ri_op decode_fields
  decode-r_encode_U RiOp.lui i = decode-u_word RiOp.lui 0x37 (omega arith) refl (λ w. refl)
  decode-r_encode_U RiOp.auipc i = decode-u_word RiOp.auipc 0x17 (omega arith) refl (λ w. refl)
  decode-r_encode_U _ i = absurd i

-- The offsets that jal can hold: even, from -2^20 to 2^20 - 2.
abbrev pub IsJumpOffset : ℕ → Type 0
IsJumpOffset imm = InRange 0xfffff 0x100000 imm × (imm % 2 ≡ 0)

module _ (rd offset : ℕ) (d : IsRegister rd) (range : IsJumpOffset offset) where
  abbrev j_magnitude : ℕ
  j_magnitude = if slt32 offset 0 then sub32 (shl32 1 21) (neg32 offset) else offset

  abbrev j_sign : ℕ
  j_sign = if slt32 offset 0 then 1 else 0

  j_magnitude-low : j_magnitude ≡ offset % 2 ^ 21
  j_magnitude-low = let h = range.0.1 in let w = range.0.0 in ground arith

  j_sign-high : j_sign ≡ offset / 2 ^ 20 % 2
  j_sign-high = let h = range.0.1 in let w = range.0.0 in ground arith

  j_sign_extend : sign_extend 21 (offset % 2 ^ 21) ≡ offset
  j_sign_extend = let h = range.0.1 in let w = range.0.0 in ground arith

  abbrev j_word : ℕ → ℕ
  j_word op =
      let m = j_magnitude in
      add32
        (add32 (add32 (add32 (add32 op (shl32 rd 7)) (bits m 1 10 * 2 ^ 21)) (bits m 11 1 * 2 ^ 20))
          (bits m 12 8 * 2 ^ 12))
        (shl32 j_sign 31)

  r_encode_J-j_word : r_encode_J RiOp.jal rd offset ≡ ok (j_word (ri_op RiOp.jal))
  unfolding r_encode_J
  r_encode_J-j_word =
      let m = j_magnitude in
      let small : IsWord m = omega (arith, j_magnitude-low) in
      let head = add32 (ri_op RiOp.jal) (shl32 rd 7) in
      λ i. extract_1_10 m small i >>= λ low. extract_11_to_20 m small i >>= λ eleven.
      extract_12_19 m small i >>= λ middle.
      ok (add32 (add32 (add32 (add32 head low) eleven) middle) (shl32 j_sign 31))

  -- With a register below 32 and an even offset from -2^20 to 2^20 - 2, jal is encoded as a
  -- 32-bit word, and the word decodes to the instruction.
  pub decode-r_encode_J : EncodesTo (r_encode_J RiOp.jal rd offset) (j_type RiOp.jal rd offset)
  unfolding ri_op decode_fields
  decode-r_encode_J =
      let w = j_word (ri_op RiOp.jal) in
      let m = j_magnitude in
      let low : m ≡ offset % 2 ^ 21 = j_magnitude-low in
      let sign : j_sign ≡ offset / 2 ^ 20 % 2 = j_sign-high in
      let even = range.1 in
      let d' : rd_field w ≡ rd = omega (arith, low, sign) in
      let field : w / 2 ^ 31 % 2 * 2 ^ 20
            + w / 2 ^ 12 % 2 ^ 8 * 2 ^ 12
            + w / 2 ^ 20 % 2 * 2 ^ 11
            + w / 2 ^ 21 % 2 ^ 10 * 2
          ≡ offset % 2 ^ 21 =
        omega (arith, low, sign, even) in
      let imm' : j_immediate w ≡ offset = ap (sign_extend 21) field ∙ j_sign_extend in
      (
        w,
        r_encode_J-j_word,
        omega arith,
        decode_at {opcode = 0x6f} {funct3 = funct3_field w} {funct7 = funct7_field w} w
              (omega (arith, low, sign)) refl refl
            ∙ λ i. some (j_type RiOp.jal (d' i) (imm' i)),
      )
