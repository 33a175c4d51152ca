-- ===== src/RiscV/Opcode.antt =====
-- src/arch/riscv.c: the opcodes and the registers of the RISC-V encoder.
use rvcc.Prelude.{ℕ}

-- ri_op
pub data RiOp : Type 0 where
  add sub xor or and sll srl sra slt sltu : RiOp
  addi xori ori andi slli srli srai slti sltiu : RiOp
  lb lh lw lbu lhu sb sh sw : RiOp
  beq bne blt bge bltu bgeu : RiOp
  jal jalr lui auipc ecall ebreak mul : RiOp

-- The number that the enumeration gives each opcode.
unfoldable pub ri_op : RiOp → ℕ
ri_op RiOp.add = 51
ri_op RiOp.sub = 1073741875
ri_op RiOp.xor = 16435
ri_op RiOp.or = 24627
ri_op RiOp.and = 28723
ri_op RiOp.sll = 4147
ri_op RiOp.srl = 20531
ri_op RiOp.sra = 1073762355
ri_op RiOp.slt = 8243
ri_op RiOp.sltu = 12339
ri_op RiOp.addi = 19
ri_op RiOp.xori = 16403
ri_op RiOp.ori = 24595
ri_op RiOp.andi = 28691
ri_op RiOp.slli = 4115
ri_op RiOp.srli = 20499
ri_op RiOp.srai = 1073762323
ri_op RiOp.slti = 8211
ri_op RiOp.sltiu = 12307
ri_op RiOp.lb = 3
ri_op RiOp.lh = 4099
ri_op RiOp.lw = 8195
ri_op RiOp.lbu = 16387
ri_op RiOp.lhu = 20483
ri_op RiOp.sb = 35
ri_op RiOp.sh = 4131
ri_op RiOp.sw = 8227
ri_op RiOp.beq = 99
ri_op RiOp.bne = 4195
ri_op RiOp.blt = 16483
ri_op RiOp.bge = 20579
ri_op RiOp.bltu = 24675
ri_op RiOp.bgeu = 28771
ri_op RiOp.jal = 111
ri_op RiOp.jalr = 103
ri_op RiOp.lui = 55
ri_op RiOp.auipc = 23
ri_op RiOp.ecall = 115
ri_op RiOp.ebreak = 1048691
ri_op RiOp.mul = 33554483

-- r_reg: the registers that the encoder's callers name. A register is its number.
abbrev pub r_zero : ℕ
r_zero = 0

abbrev pub r_ra : ℕ
r_ra = 1

abbrev pub r_sp : ℕ
r_sp = 2

abbrev pub r_s0 : ℕ
r_s0 = 8

abbrev pub r_a0 : ℕ
r_a0 = 10

abbrev pub r_a1 : ℕ
r_a1 = 11

abbrev pub r_a2 : ℕ
r_a2 = 12

abbrev pub r_a3 : ℕ
r_a3 = 13

abbrev pub r_a7 : ℕ
r_a7 = 17
