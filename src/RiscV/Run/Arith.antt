-- ===== src/RiscV/Run/Arith.antt =====
-- r_op_alu, r_op_log and r_op_bit: the emitted instruction computes the operation of C.
use Prim.Native.Nat.{bit_and, bit_or}
use rvcc.Prelude.{
  ℕ, ◌+◌, ◌-◌, ◌*◌, ◌/◌, ◌%◌, ◌^◌, ◌<◌, ◌≡◌, refl, ◌⊎◌, inl, inr, ap, ◌&&◌, ◌||◌, not, some, [],
  ◌∷◌, arith, ◌==◌,
}
use rvcc.Result.{ok}
use rvcc.Word.{word_mod}
use rvcc.Il.{IlOp}
use rvcc.Buffer.{Emit}
use rvcc.Backend.Defs.{BackendState}
use rvcc.Backend.Laws.{IsAlu, IsLog, IsBit}
use rvcc.RiscV.Opcode.{RiOp, r_zero}
use rvcc.RiscV.Encode.{r_encode_R}
use rvcc.RiscV.Asm.{r_add, r_sub, r_mul, r_and, r_or, r_sll, r_srl, r_sltiu}
use rvcc.RiscV.Backend.{r_op_alu, r_op_log, r_op_bit}
use rvcc.RiscV.Isa.{Instr, r_type, i_type}
use rvcc.RiscV.Decode.Fields.{IsRegister, EncodesTo}
use rvcc.RiscV.Decode.Register.{IsRegisterOp, decode-r_encode_R}
use rvcc.RiscV.Decode.Immediate.{decode-r_encode_I}
use rvcc.RiscV.Machine.{Machine, read, flag, set_reg, alu, exec_i, exec}
use rvcc.RiscV.Machine.Code.{Assembles, Assembles-c_emit, Holds, Holds-Code, Runs, here, Runs-step}

r_type-EncodesTo :
    (op : RiOp) (rd rs1 rs2 : ℕ)
    → IsRegister rd
    → IsRegister rs1
    → IsRegister rs2
    → IsRegisterOp op
    → EncodesTo (ok (r_encode_R op rd rs1 rs2)) (r_type op rd rs1 rs2)
unfolding r_encode_R
r_type-EncodesTo op rd rs1 rs2 d s1 s2 i =
    (r_encode_R op rd rs1 rs2, refl, omega arith, decode-r_encode_R rd rs1 rs2 d s1 s2 op i)

one-Runs :
    {m' : Machine} (e : Emit) (m : Machine) (i : Instr)
    → Assembles (i ∷ []) e
    → Holds e m
    → exec i m ≡ some m'
    → Runs m m'
one-Runs e m i p h runs =
    let start : Runs m m = here in Runs-step i m.pc start refl (Holds-Code m p h).0 runs

-- What the arithmetic operators of C mean on 32-bit values that wrap.
abbrev pub computes : IlOp → ℕ → ℕ → ℕ
computes IlOp.add a b = (a + b) % word_mod
computes IlOp.sub a b = (a + (word_mod - b)) % word_mod
computes IlOp.mul a b = a * b % word_mod
computes IlOp.negate a b = (word_mod - a) % word_mod
computes _ a b = 0

-- Where the registers are below 32 and the code of an arithmetic operation stands in memory at
-- the program counter, it puts the result of the operator on 32-bit values that wrap into the
-- destination register and goes on behind itself. It changes nothing else.
pub r_op_alu-Runs :
    (state : BackendState) (op : IlOp) (m : Machine)
    → IsRegister state.dest_reg
    → IsRegister state.op_reg
    → IsAlu op
    → Holds (r_op_alu state op) m
    → Runs m (set_reg m state.dest_reg (computes op (read m state.dest_reg) (read m state.op_reg)))
unfolding r_op_alu r_add r_sub r_mul exec alu
r_op_alu-Runs state IlOp.add m d o i h =
    one-Runs _ m (r_type RiOp.add state.dest_reg state.dest_reg state.op_reg)
      (Assembles-c_emit (r_type-EncodesTo RiOp.add _ _ _ d d o tt)) h refl
r_op_alu-Runs state IlOp.sub m d o i h =
    one-Runs _ m (r_type RiOp.sub state.dest_reg state.dest_reg state.op_reg)
      (Assembles-c_emit (r_type-EncodesTo RiOp.sub _ _ _ d d o tt)) h refl
r_op_alu-Runs state IlOp.mul m d o i h =
    one-Runs _ m (r_type RiOp.mul state.dest_reg state.dest_reg state.op_reg)
      (Assembles-c_emit (r_type-EncodesTo RiOp.mul _ _ _ d d o tt)) h refl
r_op_alu-Runs state IlOp.negate m d o i h =
    one-Runs _ m (r_type RiOp.sub state.dest_reg r_zero state.dest_reg)
      (Assembles-c_emit (r_type-EncodesTo RiOp.sub _ _ _ d (omega arith) d tt)) h
      (ap (λ v. some (set_reg m state.dest_reg v)) (omega arith))
r_op_alu-Runs state _ m d o i h = absurd i

-- What the bitwise and shift operators and `!` mean on 32-bit values: `>>` brings in zeros.
abbrev pub bits : IlOp → ℕ → ℕ → ℕ
bits IlOp.bit_and a b = bit_and a b
bits IlOp.bit_or a b = bit_or a b
bits IlOp.bit_lshift a b = a * 2 ^ b % word_mod
bits IlOp.bit_rshift a b = a / 2 ^ b
bits IlOp.not a b = flag (a == 0)
bits _ a b = 0

-- Where the registers are below 32, the second value is below 32, and the code of a bitwise
-- operation, a shift or a logical negation stands in memory at the program counter, it puts the
-- result of the operator into the destination register, whatever the first value is, and goes on
-- behind itself. A shift to the right brings in zeros. Nothing else changes.
pub r_op_bit-Runs :
    (state : BackendState) (op : IlOp) (m : Machine)
    → IsRegister state.dest_reg
    → IsRegister state.op_reg
    → IsBit op
    → read m state.op_reg < 32
    → Holds (r_op_bit state op) m
    → Runs m (set_reg m state.dest_reg (bits op (read m state.dest_reg) (read m state.op_reg)))
unfolding r_op_bit r_and r_or r_sll r_srl r_sltiu exec exec_i alu
r_op_bit-Runs state IlOp.bit_and m d o i small h =
    one-Runs _ m (r_type RiOp.and state.dest_reg state.dest_reg state.op_reg)
      (Assembles-c_emit (r_type-EncodesTo RiOp.and _ _ _ d d o tt)) h refl
r_op_bit-Runs state IlOp.bit_or m d o i small h =
    one-Runs _ m (r_type RiOp.or state.dest_reg state.dest_reg state.op_reg)
      (Assembles-c_emit (r_type-EncodesTo RiOp.or _ _ _ d d o tt)) h refl
r_op_bit-Runs state IlOp.bit_lshift m d o i small h =
    one-Runs _ m (r_type RiOp.sll state.dest_reg state.dest_reg state.op_reg)
      (Assembles-c_emit (r_type-EncodesTo RiOp.sll _ _ _ d d o tt)) h
      (ap (λ k. some (set_reg m state.dest_reg (read m state.dest_reg * 2 ^ k % word_mod)))
        (omega arith))
r_op_bit-Runs state IlOp.bit_rshift m d o i small h =
    one-Runs _ m (r_type RiOp.srl state.dest_reg state.dest_reg state.op_reg)
      (Assembles-c_emit (r_type-EncodesTo RiOp.srl _ _ _ d d o tt)) h
      (ap (λ k. some (set_reg m state.dest_reg (read m state.dest_reg / 2 ^ k))) (omega arith))
r_op_bit-Runs state IlOp.not m d o i small h =
    one-Runs _ m (i_type RiOp.sltiu state.dest_reg state.dest_reg 1)
      (Assembles-c_emit (decode-r_encode_I _ _ 1 d d (omega arith, refl) RiOp.sltiu tt)) h
      (ap (λ v. some (set_reg m state.dest_reg v)) (ground arith))
r_op_bit-Runs state _ m d o i small h = absurd i

-- What `&&` and `||` mean.
abbrev pub logic : IlOp → ℕ → ℕ → ℕ
logic IlOp.log_and a b = flag (not (a == 0) && not (b == 0))
logic IlOp.log_or a b = flag (not (a == 0) || not (b == 0))
logic _ a b = 0

truth : (a : ℕ) → a < 2 → (a ≡ 0) ⊎ (a ≡ 1)
truth a p = omega arith

bit_and-flags : (a b : ℕ) → a < 2 → b < 2 → bit_and a b ≡ logic IlOp.log_and a b
bit_and-flags a b p q = elim (truth a p) [
  | inl e ↦ elim (truth b q) [ inl f ↦ rw e (rw f) | inr f ↦ rw e (rw f) ]
  | inr e ↦ elim (truth b q) [ inl f ↦ rw e (rw f) | inr f ↦ rw e (rw f) ]
]

bit_or-flags : (a b : ℕ) → a < 2 → b < 2 → bit_or a b ≡ logic IlOp.log_or a b
bit_or-flags a b p q = elim (truth a p) [
  | inl e ↦ elim (truth b q) [ inl f ↦ rw e (rw f) | inr f ↦ rw e (rw f) ]
  | inr e ↦ elim (truth b q) [ inl f ↦ rw e (rw f) | inr f ↦ rw e (rw f) ]
]

-- Where the registers are below 32 and hold truth values, 0 or 1, and the code of && or ||
-- stands in memory at the program counter, it puts the result of the operator into the
-- destination register and goes on behind itself. It changes nothing else.
pub r_op_log-Runs :
    (state : BackendState) (op : IlOp) (m : Machine)
    → IsRegister state.dest_reg
    → IsRegister state.op_reg
    → IsLog op
    → read m state.dest_reg < 2
    → read m state.op_reg < 2
    → Holds (r_op_log state op) m
    → Runs m (set_reg m state.dest_reg (logic op (read m state.dest_reg) (read m state.op_reg)))
unfolding r_op_log r_and r_or exec alu
r_op_log-Runs state IlOp.log_and m d o i p q h =
    one-Runs _ m (r_type RiOp.and state.dest_reg state.dest_reg state.op_reg)
      (Assembles-c_emit (r_type-EncodesTo RiOp.and _ _ _ d d o tt)) h
      (ap (λ v. some (set_reg m state.dest_reg v)) (bit_and-flags _ _ p q))
r_op_log-Runs state IlOp.log_or m d o i p q h =
    one-Runs _ m (r_type RiOp.or state.dest_reg state.dest_reg state.op_reg)
      (Assembles-c_emit (r_type-EncodesTo RiOp.or _ _ _ d d o tt)) h
      (ap (λ v. some (set_reg m state.dest_reg v)) (bit_or-flags _ _ p q))
r_op_log-Runs state _ m d o i p q h = absurd i
