-- ===== src/Arm/Decode/Data.antt =====
-- Data-processing instructions: a_mov.
use rvcc.Prelude.{
  ℕ, ◌+◌, ◌*◌, ◌%◌, ◌^◌, ◌≤◌, ◌<◌, ◌≡◌, ◌≢◌, refl, ap, ◌∙◌, ◌⊎◌, true, false, inl, inr, some, ◌==◌,
  arith,
}
use rvcc.Result.{ok, err, Error}
use rvcc.Word.{add32, shl32, slt32}
use rvcc.Arm.Opcode.{ArOp, ar_op, ArCond, ar_cond}
use rvcc.Arm.Encode.{a_encode, a_mov, shifter_operand}
use rvcc.Arm.Isa.{
  Instr, Operand, decode, decode_class, decode_immediate, decode_register, is_data_op, field,
  expand_immediate,
}
use rvcc.Arm.Immediate.{IsEightBits, shifter_operand-decides}
use rvcc.Arm.Decode.Words.{
  IsRegister, cond_bound, op_bound, a_word, word_cond, word_op, word_opcode, word_s, word_rn,
  word_rd, word_low, decode_at, a_encode_word,
}

unallowed : (op s : ℕ) → s ≤ 1 → is_data_op op s ≡ true → (op * 2 + s ≢ 16) × (op * 2 + s ≢ 20)
unallowed op s b e = (ground (arith, b, e), ground (arith, b, e))

not_equal : (a b : ℕ) → a ≢ b → a == b ≡ false
not_equal a b n = ground (arith, n)

decode_immediate_lem :
    (w c op s rn rd f : ℕ)
    → s ≤ 1
    → is_data_op op s ≡ true
    → field w 28 4 ≡ c
    → field w 20 5 ≡ op * 2 + s
    → field w 21 4 ≡ op
    → field w 20 1 ≡ s
    → field w 16 4 ≡ rn
    → field w 12 4 ≡ rd
    → field w 0 12 ≡ f
    → decode_immediate w
      ≡ some (Instr.data_processing c op (s == 1) rn rd (Operand.immediate (expand_immediate f)))
unfolding decode_immediate
decode_immediate_lem w c op s rn rd f b ok_op e28 e205 e21 e20 e16 e12 e0 =
    let (n16, n20) = unallowed op s b ok_op in
    rw
      (
        e205,
        not_equal (op * 2 + s) 16 n16,
        not_equal (op * 2 + s) 20 n20,
        e21,
        e20,
        ok_op,
        e28,
        e16,
        e12,
        e0,
      )
      refl

low_bits : (w : ℕ) → field w 4 4 ≡ 0 → (field w 4 21 ≢ 0x12fff1) × (field w 4 21 ≢ 0x12fff3)
low_bits w e = (λ h. omega (arith, e, h), λ h. omega (arith, e, h))

decode_register_lem :
    (w c op s rn rd rm : ℕ)
    → is_data_op op s ≡ true
    → field w 4 8 ≡ 0
    → field w 28 4 ≡ c
    → field w 21 4 ≡ op
    → field w 20 1 ≡ s
    → field w 16 4 ≡ rn
    → field w 12 4 ≡ rd
    → field w 0 4 ≡ rm
    → decode_register w ≡ some (Instr.data_processing c op (s == 1) rn rd (Operand.register rm))
unfolding decode_register
decode_register_lem w c op s rn rd rm legal e48 e28 e21 e20 e16 e12 e0 =
    let e44 : field w 4 4 ≡ 0 = omega (arith, e48) in
    let (n1, n3) = low_bits w e44 in
    rw
      (
        not_equal (field w 4 21) 0x12fff1 n1,
        not_equal (field w 4 21) 0x12fff3 n3,
        e44,
        e48,
        e21,
        e20,
        legal,
        e28,
        e16,
        e12,
        e0,
      )
      refl

module _ (cond : ArCond) (rn rd f : ℕ) (n : IsRegister rn) (d : IsRegister rd) (bf : f < 4096) where
  -- A data-processing instruction whose second operand is the field's value.
  decode-immediate_word :
      (op : ArOp) (s : ℕ)
      → s ≤ 1
      → is_data_op (ar_op op) s ≡ true
      → decode (a_encode cond (s + ar_op op * 2 + 32) rn rd f)
        ≡ some (
            Instr.data_processing
              (ar_cond cond)
              (ar_op op)
              (s == 1)
              rn
              rd
              (Operand.immediate (expand_immediate f)))
  unfolding decode_class
  decode-immediate_word op s b legal =
      let o = s + ar_op op * 2 + 32 in
      let c = ar_cond cond in
      let bc = cond_bound cond in
      let bo : o < 256 = omega (arith, op_bound op) in
      let w = a_word c o rn rd f in
      ap decode (a_encode_word cond o rn rd f bo n d bf)
      ∙ decode_at c o rn rd f bc bo n d bf 1 (omega (arith, op_bound op))
      ∙ decode_immediate_lem w c (ar_op op) s rn rd f b legal (word_cond c o rn rd f bc bo n d bf)
          (word_op c o rn rd f bc bo n d bf ∙ omega (arith, op_bound op))
          (word_opcode c o rn rd f bc bo n d bf ∙ omega (arith, op_bound op))
          (word_s c o rn rd f bc bo n d bf ∙ omega arith) (word_rn c o rn rd f bc bo n d bf)
          (word_rd c o rn rd f bc bo n d bf) (word_low c o rn rd f bc bo n d bf)

  -- The same with a register for the second operand.
  decode-register_word :
      (op : ArOp) (s : ℕ)
      → s ≤ 1
      → is_data_op (ar_op op) s ≡ true
      → f < 16
      → decode (a_encode cond (s + ar_op op * 2) rn rd f)
        ≡ some (Instr.data_processing (ar_cond cond) (ar_op op) (s == 1) rn rd (Operand.register f))
  unfolding decode_class
  decode-register_word op s b legal small =
      let o = s + ar_op op * 2 in
      let c = ar_cond cond in
      let bc = cond_bound cond in
      let bo : o < 256 = omega (arith, op_bound op) in
      let w = a_word c o rn rd f in
      ap decode (a_encode_word cond o rn rd f bo n d bf)
      ∙ decode_at c o rn rd f bc bo n d bf 0 (omega (arith, op_bound op))
      ∙ decode_register_lem w c (ar_op op) s rn rd f legal (omega (arith, small))
          (word_cond c o rn rd f bc bo n d bf)
          (word_opcode c o rn rd f bc bo n d bf ∙ omega (arith, op_bound op))
          (word_s c o rn rd f bc bo n d bf ∙ omega arith) (word_rn c o rn rd f bc bo n d bf)
          (word_rd c o rn rd f bc bo n d bf) (omega (arith, small))

-- For an operation that exists with the given flag, registers below 16 and a value below 2 ^ 31:
-- a_mov makes a word that decodes to the operation with exactly that value, or it stops with its
-- error, and then no eight bits shifted by an even number of places are the value.
pub decode-a_mov :
    (cond : ArCond) (op : ArOp) (s rn rd op2 : ℕ)
    → s ≤ 1
    → is_data_op (ar_op op) s ≡ true
    → IsRegister rn
    → IsRegister rd
    → op2 < 2 ^ 31
    → ((w : ℕ) × (a_mov cond 1 op s rn rd op2 ≡ ok w)
        × (decode w
            ≡ some (
                Instr.data_processing
                  (ar_cond cond)
                  (ar_op op)
                  (s == 1)
                  rn
                  rd
                  (Operand.immediate op2))))
      ⊎ ((a_mov cond 1 op s rn rd op2 ≡ err Error.unable_to_represent_value) × ¬ IsEightBits op2)
unfolding a_mov
decode-a_mov cond op s rn rd op2 b legal n d w = elim (shifter_operand-decides op2 w) [
  | inl (f, e, (bf, is)) ↦
      let o : add32 (add32 s (shl32 (ar_op op) 1)) (shl32 1 5) ≡ s + ar_op op * 2 + 32 =
        omega (arith, op_bound op, b) in
      inl (
        a_encode cond (s + ar_op op * 2 + 32) rn rd f,
        rw e (ap (λ o. ok (a_encode cond o rn rd f)) o),
        decode-immediate_word cond rn rd f n d bf op s b legal
            ∙ ap
                (λ v. some (
                  Instr.data_processing (ar_cond cond) (ar_op op) (s == 1) rn rd
                    (Operand.immediate v)))
                is,
      )
  | inr (e, unfit) ↦ inr (rw e refl, unfit)
]

pub decode-a_mov_register :
    (cond : ArCond) (op : ArOp) (s rn rd rm : ℕ)
    → s ≤ 1
    → is_data_op (ar_op op) s ≡ true
    → IsRegister rn
    → IsRegister rd
    → IsRegister rm
    → (w : ℕ) × (a_mov cond 0 op s rn rd rm ≡ ok w)
      × (decode w
          ≡ some (
              Instr.data_processing (ar_cond cond) (ar_op op) (s == 1) rn rd (Operand.register rm)))
unfolding a_mov shifter_operand
decode-a_mov_register cond op s rn rd rm b legal n d m =
    let o : add32 (add32 s (shl32 (ar_op op) 1)) (shl32 0 5) ≡ s + ar_op op * 2 =
      omega (arith, op_bound op, b) in
    let small : slt32 255 rm ≡ false = ground (arith, m) in
    let low : rm % 256 ≡ rm = omega (arith, m) in
    (
      a_encode cond (s + ar_op op * 2) rn rd rm,
      rw (small, low) (ap (λ o. ok (a_encode cond o rn rd rm)) o),
      decode-register_word cond rn rd rm n d (omega (arith, m)) op s b legal m,
    )
