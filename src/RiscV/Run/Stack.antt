-- ===== src/RiscV/Run/Stack.antt =====
-- r_op_push and r_op_pop: a value put on the stack comes back.
use rvcc.Prelude.{ℕ, ◌+◌, ◌<◌, ◌≡◌, ◌≢◌, refl, sym, ap, ◌∙◌, some, arith}
use rvcc.Word.{IsWord, word_mod, add32, neg32}
use rvcc.Backend.Defs.{BackendState}
use rvcc.RiscV.Opcode.{RiOp, r_sp}
use rvcc.RiscV.Backend.{r_op_push, r_op_pop}
use rvcc.RiscV.Isa.{i_type, s_type}
use rvcc.RiscV.Decode.Fields.{IsRegister}
use rvcc.RiscV.Decode.Named.{addi-EncodesTo, lw-EncodesTo, sw-EncodesTo}
use rvcc.RiscV.Machine.{Machine, read, write, word_at, store_word, exec}
use rvcc.RiscV.Machine.Code.{
  Assembles->>, Assembles-c_emit, Holds, Holds-Code, Runs, here, Runs-step,
}

-- A word that is stored reads back.
pub word_at-store_word :
    (mem : ℕ → ℕ) (a v : ℕ) → IsWord a → IsWord v → word_at (store_word mem a v) a ≡ v
word_at-store_word mem a v ha hv = ground arith

-- The machine after a push, and after a pop.
abbrev pub pushed : Machine → ℕ → Machine
pushed m r = record m {
  reg = write m.reg r_sp (add32 (m.reg r_sp) (neg32 16));
  mem = store_word m.mem (add32 (m.reg r_sp) (neg32 16)) (read m r);
  pc = m.pc + 8;
}

abbrev pub popped : Machine → ℕ → Machine
popped m r = record m {
  reg = write (write m.reg r (word_at m.mem (m.reg r_sp))) r_sp (add32 (m.reg r_sp) 16);
  pc = m.pc + 8;
}

-- A register other than the written one keeps its value.
read-write_ne :
    (m : Machine) (r q v pc : ℕ)
    → q ≢ r
    → read (record m { reg = write m.reg r v; pc = pc }) q ≡ read m q
read-write_ne m r q v pc h = ground arith

written_below :
    (m : Machine) (r v sp : ℕ) → r ≢ 0 → r ≢ r_sp → write (write m.reg r v) r_sp sp r ≡ v
written_below m r v sp h k = ground arith

-- A push moves the stack pointer down by 16 and stores the register there.
pub r_op_push-Runs :
    (state : BackendState) (m : Machine)
    → IsRegister state.dest_reg
    → state.dest_reg ≢ r_sp
    → Holds (r_op_push state) m
    → m.pc + 8 < word_mod
    → IsWord (m.reg r_sp)
    → Runs m (pushed m state.dest_reg)
unfolding r_op_push exec
r_op_push-Runs state m d other h fits word =
    let code =
      Holds-Code m
        (Assembles->>
          (Assembles-c_emit
            (addi-EncodesTo r_sp r_sp (neg32 16) (omega arith) (omega arith) (omega arith, refl)))
          (Assembles-c_emit (sw-EncodesTo _ r_sp 0 d (omega arith) (omega arith, refl))))
        h in
    let start : Runs m m = here in
    let sp = add32 (m.reg r_sp) (neg32 16) in
    let moved = Runs-step (i_type RiOp.addi r_sp r_sp (neg32 16)) m.pc start refl code.0 refl in
    let next : add32 m.pc 4 ≡ m.pc + 4 = omega arith in
    let behind : add32 (add32 m.pc 4) 4 ≡ m.pc + 8 = omega arith in
    let address : add32 sp 0 ≡ sp = omega arith in
    let value = read-write_ne m r_sp state.dest_reg sp (add32 m.pc 4) other in
    Runs-step (s_type RiOp.sw r_sp state.dest_reg 0) (m.pc + 4) moved next code.1.0 (λ i.
      some (record m {
        reg = write m.reg r_sp sp;
        mem = store_word m.mem (address i) (value i);
        pc = behind i;
      }))

pub r_op_pop-Runs :
    (state : BackendState) (m : Machine)
    → IsRegister state.dest_reg
    → state.dest_reg ≢ r_sp
    → Holds (r_op_pop state) m
    → m.pc + 8 < word_mod
    → IsWord (m.reg r_sp)
    → Runs m (popped m state.dest_reg)
unfolding r_op_pop exec
r_op_pop-Runs state m d other h fits word =
    let code =
      Holds-Code m
        (Assembles->> (Assembles-c_emit (lw-EncodesTo _ r_sp 0 d (omega arith) (omega arith, refl)))
          (Assembles-c_emit
            (addi-EncodesTo r_sp r_sp 16 (omega arith) (omega arith) (omega arith, refl))))
        h in
    let start : Runs m m = here in
    let address : add32 (m.reg r_sp) 0 ≡ m.reg r_sp = omega arith in
    let value = word_at m.mem (m.reg r_sp) in
    let next : add32 m.pc 4 ≡ m.pc + 4 = omega arith in
    let behind : add32 (m.pc + 4) 4 ≡ m.pc + 8 = omega arith in
    let loaded =
      Runs-step {m₂ = record m { reg = write m.reg state.dest_reg value; pc = m.pc + 4 }}
        (i_type RiOp.lw state.dest_reg r_sp 0) m.pc start refl code.0
        (λ i. some (record m {
          reg = write m.reg state.dest_reg (word_at m.mem (address i));
          pc = next i;
        })) in
    let sp = read-write_ne m state.dest_reg r_sp value (m.pc + 4) (λ e. other (sym e)) in
    Runs-step (i_type RiOp.addi r_sp r_sp 16) (m.pc + 4) loaded refl code.1.0 (λ i. some (record m {
      reg = write (write m.reg state.dest_reg value) r_sp (add32 (sp i) 16);
      pc = behind i;
    }))

-- After the code of a push has run, and whatever has run then, if the stack pointer and the four
-- bytes at it are as the push left them, the code of a pop puts the pushed value into its
-- register and the stack pointer back to where it was before the push. The registers of both are
-- below 32 and not the stack pointer, that of the pop is not register 0, the two pieces of code
-- stand in memory at the program counters, and the values are 32-bit.
pub r_op_pop-r_op_push :
    (from to : BackendState) (m m' : Machine)
    → IsRegister from.dest_reg
    → from.dest_reg ≢ r_sp
    → IsRegister to.dest_reg
    → to.dest_reg ≢ r_sp
    → to.dest_reg ≢ 0
    → Holds (r_op_push from) m
    → m.pc + 8 < word_mod
    → IsWord (m.reg r_sp)
    → IsWord (read m from.dest_reg)
    → m'.reg r_sp ≡ (pushed m from.dest_reg).reg r_sp
    → word_at m'.mem (m'.reg r_sp) ≡ word_at (pushed m from.dest_reg).mem (m'.reg r_sp)
    → Holds (r_op_pop to) m'
    → m'.pc + 8 < word_mod
    → Runs m (pushed m from.dest_reg)
      × Runs m' (popped m' to.dest_reg)
      × ((popped m' to.dest_reg).reg to.dest_reg ≡ read m from.dest_reg)
      × ((popped m' to.dest_reg).reg r_sp ≡ m.reg r_sp)
r_op_pop-r_op_push from to m m' d other d' other' nonzero h fits word value sp kept h' fits' =
    let a = add32 (m.reg r_sp) (neg32 16) in
    let here' : m'.reg r_sp ≡ a = sp in
    let stored : word_at m'.mem (m'.reg r_sp) ≡ read m from.dest_reg =
      kept
      ∙ (ap (λ x. word_at (pushed m from.dest_reg).mem x) here'
          ∙ word_at-store_word m.mem a (read m from.dest_reg) (omega arith) value) in
    (
      r_op_push-Runs from m d other h fits word,
      r_op_pop-Runs to m' d' other' h' fits' (omega (arith, here')),
      written_below m' to.dest_reg (word_at m'.mem (m'.reg r_sp)) (add32 (m'.reg r_sp) 16) nonzero
            other'
          ∙ stored,
      (let back : add32 (m'.reg r_sp) 16 ≡ m.reg r_sp = omega (arith, here') in back),
    )
