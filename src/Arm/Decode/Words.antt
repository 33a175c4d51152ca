-- ===== src/Arm/Decode/Words.antt =====
-- src/arch/arm.c: the places of an instruction word's fields.
use rvcc.Prelude.{
  ℕ, ◌+◌, ◌*◌, ◌/◌, ◌%◌, ◌^◌, ◌<◌, ◌≡◌, refl, ap, ◌∙◌, false, none, ◌==◌, if◌then◌else◌, arith,
}
use rvcc.Arm.Opcode.{ArOp, ar_op, ArCond, ar_cond}
use rvcc.Arm.Encode.{a_encode}
use rvcc.Arm.Isa.{decode, decode_class, field, bit}

abbrev pub IsRegister : ℕ → Type 0
IsRegister r = r < 16

pub cond_bound : (c : ArCond) → ar_cond c < 15
unfolding ar_cond
cond_bound ArCond.eq = omega arith
cond_bound ArCond.ne = omega arith
cond_bound ArCond.cs = omega arith
cond_bound ArCond.cc_ = omega arith
cond_bound ArCond.mi = omega arith
cond_bound ArCond.pl = omega arith
cond_bound ArCond.vs = omega arith
cond_bound ArCond.vc = omega arith
cond_bound ArCond.hi = omega arith
cond_bound ArCond.ls = omega arith
cond_bound ArCond.ge = omega arith
cond_bound ArCond.lt = omega arith
cond_bound ArCond.gt = omega arith
cond_bound ArCond.le = omega arith
cond_bound ArCond.al = omega arith

pub op_bound : (op : ArOp) → ar_op op < 16
unfolding ar_op
op_bound ArOp.and = omega arith
op_bound ArOp.eor = omega arith
op_bound ArOp.sub = omega arith
op_bound ArOp.rsb = omega arith
op_bound ArOp.add = omega arith
op_bound ArOp.adc = omega arith
op_bound ArOp.sbc = omega arith
op_bound ArOp.rsc = omega arith
op_bound ArOp.tst = omega arith
op_bound ArOp.teq = omega arith
op_bound ArOp.cmp = omega arith
op_bound ArOp.cmn = omega arith
op_bound ArOp.orr = omega arith
op_bound ArOp.mov = omega arith
op_bound ArOp.bic = omega arith
op_bound ArOp.mvn = omega arith

-- An instruction word, by its condition, the eight bits below it, two registers and the last bits.
abbrev pub a_word : ℕ → ℕ → ℕ → ℕ → ℕ → ℕ
a_word c o rn rd f = c * 2 ^ 28 + o * 2 ^ 20 + rn * 2 ^ 16 + rd * 2 ^ 12 + f

module _ (c o rn rd f : ℕ) (bc : c < 15) (bo : o < 256) (n : rn < 16) (d : rd < 16)
    (bf : f < 4096) where
  pub word_cond : field (a_word c o rn rd f) 28 4 ≡ c
  word_cond = omega arith

  pub word_class : field (a_word c o rn rd f) 25 3 ≡ o / 32
  word_class = omega arith

  pub word_op : field (a_word c o rn rd f) 20 5 ≡ o % 32
  word_op = omega arith

  pub word_opcode : field (a_word c o rn rd f) 21 4 ≡ o / 2 % 16
  word_opcode = omega arith

  pub word_s : field (a_word c o rn rd f) 20 1 ≡ o % 2
  word_s = omega arith

  pub word_rn : field (a_word c o rn rd f) 16 4 ≡ rn
  word_rn = omega arith

  pub word_rd : field (a_word c o rn rd f) 12 4 ≡ rd
  word_rd = omega arith

  pub word_low : field (a_word c o rn rd f) 0 12 ≡ f
  word_low = omega arith

  -- The class decides.
  pub decode_at :
      (class : ℕ)
      → o / 32 ≡ class
      → decode (a_word c o rn rd f) ≡ decode_class class (a_word c o rn rd f)
  unfolding decode
  decode_at class e =
      let allowed : field (a_word c o rn rd f) 28 4 == 15 ≡ false = ground (arith, word_cond, bc) in
      ap
        (λ b.
          if b then none else decode_class (field (a_word c o rn rd f) 25 3) (a_word c o rn rd f))
        allowed
      ∙ ap (λ k. decode_class k (a_word c o rn rd f)) (word_class ∙ e)

pub a_encode_word :
    (cond : ArCond) (o rn rd f : ℕ)
    → o < 256
    → IsRegister rn
    → IsRegister rd
    → f < 4096
    → a_encode cond o rn rd f ≡ a_word (ar_cond cond) o rn rd f
unfolding a_encode
a_encode_word cond o rn rd f b n d bf = omega (arith, cond_bound cond)

pub bit_of : (o w i : ℕ) → field w i 1 ≡ o → bit w i ≡ o == 1
bit_of o w i e = rw e refl
