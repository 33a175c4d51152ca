-- ===== src/RiscV/Machine.antt =====
-- What the instructions of `RiscV.Isa` do to registers, memory and program counter, as the
-- unprivileged RISC-V specification says.
pub mod Code
use Prim.Native.Nat.{bit_and, bit_or, bit_xor}
use rvcc.Prelude.{
  ℕ, zero, suc, ◌+◌, ◌-◌, ◌*◌, ◌/◌, ◌%◌, ◌^◌, Bool, true, false, not, Option, none, some, ltb, ◌==◌,
  if◌then◌else◌,
}
use rvcc.Word.{word_mod, add32, sub32, shl32, sar32, slt32}
use rvcc.RiscV.Opcode.{RiOp}
use rvcc.RiscV.Isa.{Instr, r_type, i_type, s_type, b_type, u_type, j_type, sign_extend, decode}

pub record Machine : Type 0 where
  pub reg : ℕ → ℕ
  pub mem : ℕ → ℕ
  pub pc : ℕ

abbrev pub update : (ℕ → ℕ) → ℕ → ℕ → ℕ → ℕ
update f a v b = if a == b then v else f b

-- Register 0 reads as 0 and is not written.
abbrev pub read : Machine → ℕ → ℕ
read m r = if r == 0 then 0 else m.reg r

abbrev pub write : (ℕ → ℕ) → ℕ → ℕ → ℕ → ℕ
write regs r v = if r == 0 then regs else update regs r v

abbrev pub word_at : (ℕ → ℕ) → ℕ → ℕ
word_at mem a =
    mem a + mem (add32 a 1) * 2 ^ 8 + mem (add32 a 2) * 2 ^ 16 + mem (add32 a 3) * 2 ^ 24

abbrev pub half_at : (ℕ → ℕ) → ℕ → ℕ
half_at mem a = mem a + mem (add32 a 1) * 2 ^ 8

abbrev pub store_word : (ℕ → ℕ) → ℕ → ℕ → ℕ → ℕ
store_word mem a v =
    update
      (update (update (update mem a (v % 256)) (add32 a 1) (v / 2 ^ 8 % 256)) (add32 a 2)
        (v / 2 ^ 16 % 256))
      (add32 a 3) (v / 2 ^ 24 % 256)

abbrev pub flag : Bool → ℕ
flag b = if b then 1 else 0

-- The operation of a mnemonic on two values; those on an immediate share it.
unfoldable pub alu : RiOp → ℕ → ℕ → ℕ
alu RiOp.add a b = add32 a b
alu RiOp.sub a b = sub32 a b
alu RiOp.xor a b = bit_xor a b
alu RiOp.or a b = bit_or a b
alu RiOp.and a b = bit_and a b
alu RiOp.sll a b = shl32 a (b % 32)
alu RiOp.srl a b = a / 2 ^ (b % 32)
alu RiOp.sra a b = sar32 a (b % 32)
alu RiOp.slt a b = flag (slt32 a b)
alu RiOp.sltu a b = flag (ltb a b)
alu RiOp.mul a b = a * b % word_mod
alu RiOp.addi a b = add32 a b
alu RiOp.xori a b = bit_xor a b
alu RiOp.ori a b = bit_or a b
alu RiOp.andi a b = bit_and a b
alu RiOp.slli a b = shl32 a (b % 32)
alu RiOp.srli a b = a / 2 ^ (b % 32)
alu RiOp.srai a b = sar32 a (b % 32)
alu RiOp.slti a b = flag (slt32 a b)
alu RiOp.sltiu a b = flag (ltb a b)
alu _ a b = 0

unfoldable pub branches : RiOp → ℕ → ℕ → Bool
branches RiOp.beq a b = a == b
branches RiOp.bne a b = not (a == b)
branches RiOp.blt a b = slt32 a b
branches RiOp.bge a b = not (slt32 a b)
branches RiOp.bltu a b = ltb a b
branches RiOp.bgeu a b = not (ltb a b)
branches _ a b = false

-- A register gets a value, and control goes on.
abbrev pub set_reg : Machine → ℕ → ℕ → Machine
set_reg m rd v = record m { reg = write m.reg rd v; pc = add32 m.pc 4 }

unfoldable pub exec_i : RiOp → ℕ → ℕ → ℕ → Machine → Option Machine
unfolding alu
exec_i RiOp.lb rd a imm m = some (set_reg m rd (sign_extend 8 (m.mem (add32 a imm))))
exec_i RiOp.lh rd a imm m = some (set_reg m rd (sign_extend 16 (half_at m.mem (add32 a imm))))
exec_i RiOp.lw rd a imm m = some (set_reg m rd (word_at m.mem (add32 a imm)))
exec_i RiOp.lbu rd a imm m = some (set_reg m rd (m.mem (add32 a imm)))
exec_i RiOp.lhu rd a imm m = some (set_reg m rd (half_at m.mem (add32 a imm)))
exec_i RiOp.jalr rd a imm m =
    some (record m { reg = write m.reg rd (add32 m.pc 4); pc = add32 a imm - add32 a imm % 2 })
-- The environment handles these.
exec_i RiOp.ecall rd a imm m = none
exec_i RiOp.ebreak rd a imm m = none
exec_i op rd a imm m = some (set_reg m rd (alu op a imm))

unfoldable pub exec_s : RiOp → ℕ → ℕ → Machine → Machine
exec_s RiOp.sb a v m = record m { mem = update m.mem a (v % 256); pc = add32 m.pc 4 }
exec_s RiOp.sh a v m = record m {
  mem = update (update m.mem a (v % 256)) (add32 a 1) (v / 2 ^ 8 % 256);
  pc = add32 m.pc 4;
}
exec_s _ a v m = record m { mem = store_word m.mem a v; pc = add32 m.pc 4 }

unfoldable pub exec_u : RiOp → ℕ → ℕ → Machine → Machine
exec_u RiOp.auipc rd imm m = set_reg m rd (add32 m.pc imm)
exec_u _ rd imm m = set_reg m rd imm

unfoldable pub exec : Instr → Machine → Option Machine
unfolding alu branches exec_i exec_s exec_u
exec (r_type op rd rs1 rs2) m = some (set_reg m rd (alu op (read m rs1) (read m rs2)))
exec (i_type op rd rs1 imm) m = exec_i op rd (read m rs1) imm m
exec (s_type op rs1 rs2 imm) m = some (exec_s op (add32 (read m rs1) imm) (read m rs2) m)
exec (b_type op rs1 rs2 imm) m =
    let taken = branches op (read m rs1) (read m rs2) in
    some (record m { pc = if taken then add32 m.pc imm else add32 m.pc 4 })
exec (u_type op rd imm) m = some (exec_u op rd imm m)
exec (j_type op rd imm) m =
    some (record m { reg = write m.reg rd (add32 m.pc 4); pc = add32 m.pc imm })

abbrev pub exec_decoded : Option Instr → Machine → Option Machine
exec_decoded none m = none
exec_decoded (some i) m = exec i m

-- One instruction, from the memory at the program counter.
unfoldable pub step : Machine → Option Machine
step m = exec_decoded (decode (word_at m.mem m.pc)) m

-- A number of instructions.
unfoldable pub run : ℕ → Machine → Option Machine
unfolding step
run zero m = some m
run (suc n) m = elim (step m) [ none ↦ none | some m' ↦ run n m' ]
