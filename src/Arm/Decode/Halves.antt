-- ===== src/Arm/Decode/Halves.antt =====
-- Moves of a word's halves: a_movw and a_movt.
use rvcc.Prelude.{ℕ, ◌+◌, ◌*◌, ◌/◌, ◌%◌, ◌^◌, ◌<◌, ◌≡◌, refl, ap, ◌∙◌, some, arith}
use rvcc.Result.{◌>>=◌, ok}
use rvcc.Word.{add32}
use rvcc.Arm.Opcode.{ArCond, ar_cond}
use rvcc.Arm.Encode.{a_encode}
use rvcc.Arm.Isa.{Instr, decode, decode_class, decode_immediate, field}
use rvcc.Arm.Decode.Words.{
  IsRegister, cond_bound, a_word, word_cond, word_op, word_rn, word_rd, word_low, decode_at,
}
use rvcc.Arm.Encode.{a_movw, a_movt, a_extract_bits}
use rvcc.Word.{sar32, IsWord}

-- What a_movw and a_movt add to the word for the lower half of `imm`: its last bits in place and the
-- four above them where the first register stands.
low_part : (imm : ℕ) → IsWord imm → a_extract_bits imm 0 11 0 11 ≡ ok (imm % 4096)
unfolding a_extract_bits
low_part imm h = ap ok (ground (arith, h))

high_part : (imm : ℕ) → IsWord imm → a_extract_bits imm 12 15 16 19 ≡ ok (imm / 4096 % 16 * 2 ^ 16)
unfolding a_extract_bits
high_part imm h = ap ok (ground (arith, h))

half_word :
    (cond : ArCond) (o rd imm : ℕ)
    → o < 256
    → IsRegister rd
    → add32 (add32 (a_encode cond o 0 rd 0) (imm % 4096)) (imm / 4096 % 16 * 2 ^ 16)
      ≡ a_word (ar_cond cond) o (imm / 4096 % 16) rd (imm % 4096)
unfolding a_encode
half_word cond o rd imm b d = omega (arith, cond_bound cond)

-- a_movw and a_movt come to this for the half of a word.
half_move :
    (cond : ArCond) (o rd imm : ℕ)
    → o < 256
    → IsRegister rd
    → IsWord imm
    → (do
      low ← a_extract_bits imm 0 11 0 11
      high ← a_extract_bits imm 12 15 16 19
      ok (add32 (add32 (a_encode cond o 0 rd 0) low) high))
      ≡ ok (a_word (ar_cond cond) o (imm / 4096 % 16) rd (imm % 4096))
half_move cond o rd imm b d h =
    (λ i. low_part imm h i >>= λ low.
    high_part imm h i >>= λ high. ok (add32 (add32 (a_encode cond o 0 rd 0) low) high))
    ∙ ap ok (half_word cond o rd imm b d)

decode_movw_lem :
    (w c rd half : ℕ)
    → field w 20 5 ≡ 16
    → field w 28 4 ≡ c
    → field w 12 4 ≡ rd
    → field w 16 4 * 2 ^ 12 + field w 0 12 ≡ half
    → decode_immediate w ≡ some (Instr.movw c rd half)
unfolding decode_immediate
decode_movw_lem w c rd half e20 e28 e12 e = rw (e20, e28, e12, e) refl

decode_movt_lem :
    (w c rd half : ℕ)
    → field w 20 5 ≡ 20
    → field w 28 4 ≡ c
    → field w 12 4 ≡ rd
    → field w 16 4 * 2 ^ 12 + field w 0 12 ≡ half
    → decode_immediate w ≡ some (Instr.movt c rd half)
unfolding decode_immediate
decode_movt_lem w c rd half e20 e28 e12 e = rw (e20, e28, e12, e) refl

rn_bound : (v : ℕ) → v / 4096 % 16 < 16
rn_bound v = omega arith

f_bound : (v : ℕ) → v % 4096 < 4096
f_bound v = omega arith

halves : (v : ℕ) → v / 4096 % 16 * 2 ^ 12 + v % 4096 ≡ v % 2 ^ 16
halves v = omega arith

-- The two halves of a word go to the register's two halves.
decode-a_movw :
    (cond : ArCond) (rd imm : ℕ)
    → IsRegister rd
    → IsWord imm
    → (w : ℕ) × (a_movw cond rd imm ≡ ok w)
      × (decode w ≡ some (Instr.movw (ar_cond cond) rd (imm % 2 ^ 16)))
unfolding a_movw decode_class
decode-a_movw cond rd imm d h =
    let c = ar_cond cond in
    let rn = imm / 4096 % 16 in
    let f = imm % 4096 in
    let bc = cond_bound cond in
    let n : rn < 16 = omega arith in
    let bf : f < 4096 = omega arith in
    let bo : 48 < 256 = omega arith in
    (
      a_word c 48 rn rd f,
      half_move cond 48 rd imm bo d h,
      decode_at c 48 rn rd f bc bo n d bf 1 (omega arith)
          ∙ decode_movw_lem (a_word c 48 rn rd f) c rd (imm % 2 ^ 16)
              (word_op c 48 rn rd f bc bo n d bf) (word_cond c 48 rn rd f bc bo n d bf)
              (word_rd c 48 rn rd f bc bo n d bf)
              ((λ i.
                  word_rn c 48 rn rd f bc bo n d bf i * 2 ^ 12
                  + word_low c 48 rn rd f bc bo n d bf i)
                ∙ omega arith),
    )

upper_half : (imm : ℕ) → IsWord imm → sar32 imm 16 % 2 ^ 16 ≡ imm / 2 ^ 16
upper_half imm h = ground (arith, h)

sar32-IsWord : (imm : ℕ) → IsWord imm → IsWord (sar32 imm 16)
sar32-IsWord imm h = ground (arith, h)

decode-a_movt :
    (cond : ArCond) (rd imm : ℕ)
    → IsRegister rd
    → IsWord imm
    → (w : ℕ) × (a_movt cond rd imm ≡ ok w)
      × (decode w ≡ some (Instr.movt (ar_cond cond) rd (imm / 2 ^ 16)))
unfolding a_movt decode_class
decode-a_movt cond rd imm d h =
    let v = sar32 imm 16 in
    let c = ar_cond cond in
    let rn = v / 4096 % 16 in
    let f = v % 4096 in
    let bc = cond_bound cond in
    let n : rn < 16 = rn_bound v in
    let bf : f < 4096 = f_bound v in
    let bo : 52 < 256 = omega arith in
    (
      a_word c 52 rn rd f,
      half_move cond 52 rd v bo d (sar32-IsWord imm h),
      decode_at c 52 rn rd f bc bo n d bf 1 (omega arith)
          ∙ decode_movt_lem (a_word c 52 rn rd f) c rd (imm / 2 ^ 16)
              (word_op c 52 rn rd f bc bo n d bf) (word_cond c 52 rn rd f bc bo n d bf)
              (word_rd c 52 rn rd f bc bo n d bf)
              ((λ i.
                  word_rn c 52 rn rd f bc bo n d bf i * 2 ^ 12
                  + word_low c 52 rn rd f bc bo n d bf i)
                ∙ halves v
                ∙ upper_half imm h),
    )

-- With a register below 16 and any 32-bit value, a_movw makes a word that decodes to movw with
-- the lower sixteen bits of the value, and a_movt one that decodes to movt with the upper
-- sixteen bits.
pub decode-halves :
    (cond : ArCond) (rd imm : ℕ)
    → IsRegister rd
    → IsWord imm
    → ((w : ℕ) × (a_movw cond rd imm ≡ ok w)
        × (decode w ≡ some (Instr.movw (ar_cond cond) rd (imm % 2 ^ 16))))
      × ((w : ℕ) × (a_movt cond rd imm ≡ ok w)
          × (decode w ≡ some (Instr.movt (ar_cond cond) rd (imm / 2 ^ 16))))
decode-halves cond rd imm d h = (decode-a_movw cond rd imm d h, decode-a_movt cond rd imm d h)
