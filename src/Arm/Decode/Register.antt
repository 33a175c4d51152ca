-- ===== src/Arm/Decode/Register.antt =====
-- Instructions on registers that a_mov does not encode: a_mul, a_sll, a_srl and a_blx.
use rvcc.Prelude.{ℕ, ◌+◌, ◌*◌, ◌<◌, ◌≡◌, refl, ap, ◌∙◌, true, false, some, ◌==◌, arith}
use rvcc.Result.{ok}
use rvcc.Arm.Opcode.{ArCond, ar_cond}
use rvcc.Arm.Encode.{a_encode}
use rvcc.Arm.Isa.{Instr, Operand, decode, decode_class, decode_register, field}
use rvcc.Arm.Decode.Words.{IsRegister, cond_bound, a_word, decode_at}
use rvcc.Arm.Asm.{a_blx, a_mul, a_sll, a_srl}

decode_mul_lem :
    (w c rd r1 r2 : ℕ)
    → field w 4 4 ≡ 9
    → field w 20 5 ≡ 0
    → field w 28 4 ≡ c
    → field w 16 4 ≡ rd
    → field w 8 4 ≡ r1
    → field w 0 4 ≡ r2
    → decode_register w ≡ some (Instr.mul c rd r1 r2)
unfolding decode_register
decode_mul_lem w c rd r1 r2 e4 e20 e28 e16 e8 e0 =
    let n1 : field w 4 21 == 0x12fff1 ≡ false = ground (arith, e4) in
    let n3 : field w 4 21 == 0x12fff3 ≡ false = ground (arith, e4) in
    rw (n1, n3, e4, e20, e28, e16, e8, e0) refl

decode_blx_lem :
    (w c rd : ℕ)
    → field w 4 21 ≡ 0x12fff3
    → field w 5 1 ≡ 1
    → field w 28 4 ≡ c
    → field w 0 4 ≡ rd
    → decode_register w ≡ some (Instr.branch_register c true rd)
unfolding decode_register
decode_blx_lem w c rd e4 e5 e28 e0 = rw (e4, e5, e28, e0) refl

decode_sll_lem :
    (w c rd r1 r2 : ℕ)
    → field w 4 4 ≡ 1
    → field w 20 8 ≡ 26
    → field w 16 4 ≡ 0
    → field w 28 4 ≡ c
    → field w 12 4 ≡ rd
    → field w 8 4 ≡ r2
    → field w 0 4 ≡ r1
    → decode_register w ≡ some (Instr.data_processing c 13 false 0 rd (Operand.shifted_left r1 r2))
unfolding decode_register
decode_sll_lem w c rd r1 r2 e4 e20 e16 e28 e12 e8 e0 =
    let n1 : field w 4 21 == 0x12fff1 ≡ false = ground (arith, e20) in
    let n3 : field w 4 21 == 0x12fff3 ≡ false = ground (arith, e20) in
    let e48 : field w 4 8 == 0 ≡ false = ground (arith, e4) in
    let op : field w 21 4 ≡ 13 = omega (arith, e20) in
    let s : field w 20 1 ≡ 0 = omega (arith, e20) in
    rw (n1, n3, e4, e48, op, s, e16, e28, e12, e8, e0) refl

decode_srl_lem :
    (w c rd r1 r2 : ℕ)
    → field w 4 4 ≡ 3
    → field w 20 8 ≡ 26
    → field w 16 4 ≡ 0
    → field w 28 4 ≡ c
    → field w 12 4 ≡ rd
    → field w 8 4 ≡ r2
    → field w 0 4 ≡ r1
    → decode_register w ≡ some (Instr.data_processing c 13 false 0 rd (Operand.shifted_right r1 r2))
unfolding decode_register
decode_srl_lem w c rd r1 r2 e4 e20 e16 e28 e12 e8 e0 =
    let n1 : field w 4 21 == 0x12fff1 ≡ false = ground (arith, e20) in
    let n3 : field w 4 21 == 0x12fff3 ≡ false = ground (arith, e20) in
    let e48 : field w 4 8 == 0 ≡ false = ground (arith, e4) in
    let op : field w 21 4 ≡ 13 = omega (arith, e20) in
    let s : field w 20 1 ≡ 0 = omega (arith, e20) in
    rw (n1, n3, e4, e48, op, s, e16, e28, e12, e8, e0) refl

module _ (cond : ArCond) (rd r1 r2 : ℕ) (d : IsRegister rd) (b1 : IsRegister r1)
    (b2 : IsRegister r2) where
  decode-a_mul :
      (w : ℕ) × (a_mul cond rd r1 r2 ≡ ok w) × (decode w ≡ some (Instr.mul (ar_cond cond) rd r1 r2))
  unfolding a_mul decode_class a_encode
  decode-a_mul =
      let c = ar_cond cond in
      let bc = cond_bound cond in
      let f = r1 * 256 + 144 + r2 in
      let bf : f < 4096 = omega (arith, b1, b2) in
      let w = a_word c 0 rd 0 f in
      (
        w,
        ap ok (omega (arith, bc, b1, b2, d)),
        decode_at c 0 rd 0 f bc (omega arith) d (omega arith) bf 0 (omega arith)
            ∙ decode_mul_lem w c rd r1 r2 (omega (arith, b1, b2, d, bc))
                (omega (arith, b1, b2, d, bc)) (omega (arith, b1, b2, d, bc))
                (omega (arith, b1, b2, d, bc)) (omega (arith, b1, b2, d, bc))
                (omega (arith, b1, b2, d, bc)),
      )

  -- The amount is in the last register.
  decode-a_sll :
      (w : ℕ) × (a_sll cond rd r1 r2 ≡ ok w)
      × (decode w
          ≡ some (Instr.data_processing (ar_cond cond) 13 false 0 rd (Operand.shifted_left r1 r2)))
  unfolding a_sll decode_class a_encode
  decode-a_sll =
      let c = ar_cond cond in
      let bc = cond_bound cond in
      let f = r1 + 16 + r2 * 256 in
      let bf : f < 4096 = omega (arith, b1, b2) in
      let w = a_word c 26 0 rd f in
      (
        w,
        ap ok (omega (arith, bc, b1, b2, d)),
        decode_at c 26 0 rd f bc (omega arith) (omega arith) d bf 0 (omega arith)
            ∙ decode_sll_lem w c rd r1 r2 (omega (arith, b1, b2, d, bc))
                (omega (arith, b1, b2, d, bc)) (omega (arith, b1, b2, d, bc))
                (omega (arith, b1, b2, d, bc)) (omega (arith, b1, b2, d, bc))
                (omega (arith, b1, b2, d, bc)) (omega (arith, b1, b2, d, bc)),
      )

  decode-a_srl :
      (w : ℕ) × (a_srl cond rd r1 r2 ≡ ok w)
      × (decode w
          ≡ some (Instr.data_processing (ar_cond cond) 13 false 0 rd (Operand.shifted_right r1 r2)))
  unfolding a_srl decode_class a_encode
  decode-a_srl =
      let c = ar_cond cond in
      let bc = cond_bound cond in
      let f = r1 + 48 + r2 * 256 in
      let bf : f < 4096 = omega (arith, b1, b2) in
      let w = a_word c 26 0 rd f in
      (
        w,
        ap ok (omega (arith, bc, b1, b2, d)),
        decode_at c 26 0 rd f bc (omega arith) (omega arith) d bf 0 (omega arith)
            ∙ decode_srl_lem w c rd r1 r2 (omega (arith, b1, b2, d, bc))
                (omega (arith, b1, b2, d, bc)) (omega (arith, b1, b2, d, bc))
                (omega (arith, b1, b2, d, bc)) (omega (arith, b1, b2, d, bc))
                (omega (arith, b1, b2, d, bc)) (omega (arith, b1, b2, d, bc)),
      )

  decode-a_blx :
      (w : ℕ) × (a_blx cond rd ≡ ok w)
      × (decode w ≡ some (Instr.branch_register (ar_cond cond) true rd))
  unfolding a_blx decode_class a_encode
  decode-a_blx =
      let c = ar_cond cond in
      let bc = cond_bound cond in
      let f = rd + 3888 in
      let bf : f < 4096 = omega (arith, d) in
      let w = a_word c 18 15 15 f in
      (
        w,
        ap ok (omega (arith, bc, d)),
        decode_at c 18 15 15 f bc (omega arith) (omega arith) (omega arith) bf 0 (omega arith)
            ∙ decode_blx_lem w c rd (omega (arith, d, bc)) (omega (arith, d, bc))
                (omega (arith, d, bc)) (omega (arith, d, bc)),
      )

  -- With registers below 16, a_mul, a_sll, a_srl and a_blx make words that decode to the
  -- product, to the moves shifted to the left and to the right by a register, and to the branch
  -- with a link to a register.
  pub decode-registers :
      ((w : ℕ) × (a_mul cond rd r1 r2 ≡ ok w)
        × (decode w ≡ some (Instr.mul (ar_cond cond) rd r1 r2)))
      × ((w : ℕ) × (a_sll cond rd r1 r2 ≡ ok w)
          × (decode w
              ≡ some (
                  Instr.data_processing (ar_cond cond) 13 false 0 rd (Operand.shifted_left r1 r2))))
      × ((w : ℕ) × (a_srl cond rd r1 r2 ≡ ok w)
          × (decode w
              ≡ some (
                  Instr.data_processing
                    (ar_cond cond)
                    13
                    false
                    0
                    rd
                    (Operand.shifted_right r1 r2))))
      × ((w : ℕ) × (a_blx cond rd ≡ ok w)
          × (decode w ≡ some (Instr.branch_register (ar_cond cond) true rd)))
  decode-registers = (decode-a_mul, decode-a_sll, decode-a_srl, decode-a_blx)
