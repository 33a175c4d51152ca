-- ===== src/RiscV/Isa.antt =====
-- The RISC-V instruction set, RV32I with multiplication, as the unprivileged specification lays its
-- instruction words out: what the encoder of src/arch/riscv.c is held against. It is written from
-- the format tables of the specification and not from the encoder.
use rvcc.Prelude.{
  ℕ, ◌+◌, ◌-◌, ◌*◌, ◌/◌, ◌%◌, ◌^◌, Option, none, some, [], ◌∷◌, ltb, ◌==◌, if◌then◌else◌, get_elem?,
}
use rvcc.RiscV.Opcode.{RiOp}

-- The fields of an instruction word.
abbrev pub opcode_field : ℕ → ℕ
opcode_field w = w % 2 ^ 7

abbrev pub rd_field : ℕ → ℕ
rd_field w = w / 2 ^ 7 % 2 ^ 5

abbrev pub funct3_field : ℕ → ℕ
funct3_field w = w / 2 ^ 12 % 2 ^ 3

abbrev pub rs1_field : ℕ → ℕ
rs1_field w = w / 2 ^ 15 % 2 ^ 5

abbrev pub rs2_field : ℕ → ℕ
rs2_field w = w / 2 ^ 20 % 2 ^ 5

abbrev pub funct7_field : ℕ → ℕ
funct7_field w = w / 2 ^ 25 % 2 ^ 7

-- A value of `n` bits, its sign copied to 32 bits.
abbrev pub sign_extend : ℕ → ℕ → ℕ
sign_extend n x = if ltb x (2 ^ (n - 1)) then x else x + (2 ^ 32 - 2 ^ n)

abbrev pub i_immediate : ℕ → ℕ
i_immediate w = sign_extend 12 (w / 2 ^ 20 % 2 ^ 12)

abbrev pub s_immediate : ℕ → ℕ
s_immediate w = sign_extend 12 (funct7_field w * 2 ^ 5 + rd_field w)

abbrev pub b_immediate : ℕ → ℕ
b_immediate w = sign_extend 13 (
    w / 2 ^ 31 % 2 * 2 ^ 12
    + w / 2 ^ 7 % 2 * 2 ^ 11
    + w / 2 ^ 25 % 2 ^ 6 * 2 ^ 5
    + w / 2 ^ 8 % 2 ^ 4 * 2)

abbrev pub u_immediate : ℕ → ℕ
u_immediate w = w / 2 ^ 12 % 2 ^ 20 * 2 ^ 12

abbrev pub j_immediate : ℕ → ℕ
j_immediate w = sign_extend 21 (
    w / 2 ^ 31 % 2 * 2 ^ 20
    + w / 2 ^ 12 % 2 ^ 8 * 2 ^ 12
    + w / 2 ^ 20 % 2 * 2 ^ 11
    + w / 2 ^ 21 % 2 ^ 10 * 2)

-- An instruction: its mnemonic, its registers and its immediate as a 32-bit value.
pub data Instr : Type 0 where
  r_type : RiOp → ℕ → ℕ → ℕ → Instr
  i_type : RiOp → ℕ → ℕ → ℕ → Instr
  s_type : RiOp → ℕ → ℕ → ℕ → Instr
  b_type : RiOp → ℕ → ℕ → ℕ → Instr
  u_type : RiOp → ℕ → ℕ → Instr
  j_type : RiOp → ℕ → ℕ → Instr

abbrev pub option_then {ℓ κ} : {A : Type ℓ} {B : Type κ} → Option A → (A → B) → Option B
option_then none f = none
option_then (some a) f = some (f a)

-- Mnemonics by funct3, `none` where the row is reserved.
unfoldable pub register_op : ℕ → ℕ → Option RiOp
register_op funct7 funct3 =
    if funct7 == 0
    then get_elem?
        (RiOp.add ∷ RiOp.sll ∷ RiOp.slt ∷ RiOp.sltu ∷ RiOp.xor ∷ RiOp.srl ∷ RiOp.or ∷ RiOp.and ∷ [])
        funct3
    else if funct7 == 2 ^ 5
    then (if funct3 == 0 then some RiOp.sub else if funct3 == 5 then some RiOp.sra else none)
    else if funct7 == 1
    then (if funct3 == 0 then some RiOp.mul else none)
    else none

unfoldable pub load_op : ℕ → Option RiOp
load_op funct3 =
    if funct3 == 0
    then some RiOp.lb
    else if funct3 == 1
    then some RiOp.lh
    else if funct3 == 2
    then some RiOp.lw
    else if funct3 == 4
    then some RiOp.lbu
    else if funct3 == 5
    then some RiOp.lhu
    else none

unfoldable pub store_op : ℕ → Option RiOp
store_op funct3 = get_elem? (RiOp.sb ∷ RiOp.sh ∷ RiOp.sw ∷ []) funct3

unfoldable pub branch_op : ℕ → Option RiOp
branch_op funct3 =
    if funct3 == 0
    then some RiOp.beq
    else if funct3 == 1
    then some RiOp.bne
    else if funct3 == 4
    then some RiOp.blt
    else if funct3 == 5
    then some RiOp.bge
    else if funct3 == 6
    then some RiOp.bltu
    else if funct3 == 7
    then some RiOp.bgeu
    else none

-- Operations on an immediate, but for the shifts.
unfoldable pub immediate_op : ℕ → Option RiOp
immediate_op funct3 =
    if funct3 == 0
    then some RiOp.addi
    else if funct3 == 2
    then some RiOp.slti
    else if funct3 == 3
    then some RiOp.sltiu
    else if funct3 == 4
    then some RiOp.xori
    else if funct3 == 6
    then some RiOp.ori
    else if funct3 == 7
    then some RiOp.andi
    else none

-- Shifts by a constant: funct7 tells them apart, and rs2 is the distance.
unfoldable pub shift_op : ℕ → ℕ → Option RiOp
shift_op funct7 funct3 =
    if funct3 == 1
    then (if funct7 == 0 then some RiOp.slli else none)
    else if funct3 == 5
    then (if funct7 == 0 then some RiOp.srli else if funct7 == 2 ^ 5 then some RiOp.srai else none)
    else none

unfoldable pub system_op : ℕ → Option RiOp
system_op w =
    if w == 0x73 then some RiOp.ecall else if w == 0x100073 then some RiOp.ebreak else none

-- The instruction that a word stands for, by its fields.
unfoldable pub decode_fields : ℕ → ℕ → ℕ → ℕ → Option Instr
unfolding register_op load_op store_op branch_op immediate_op shift_op system_op
decode_fields opcode funct3 funct7 w =
    if opcode == 0x33
    then option_then (register_op funct7 funct3)
        (λ op. r_type op (rd_field w) (rs1_field w) (rs2_field w))
    else if opcode == 0x13
    then (if funct3 == 1
        then option_then (shift_op funct7 funct3)
            (λ op. i_type op (rd_field w) (rs1_field w) (rs2_field w))
        else if funct3 == 5
        then option_then (shift_op funct7 funct3)
            (λ op. i_type op (rd_field w) (rs1_field w) (rs2_field w))
        else option_then (immediate_op funct3)
            (λ op. i_type op (rd_field w) (rs1_field w) (i_immediate w)))
    else if opcode == 0x03
    then option_then (load_op funct3) (λ op. i_type op (rd_field w) (rs1_field w) (i_immediate w))
    else if opcode == 0x23
    then option_then (store_op funct3) (λ op. s_type op (rs1_field w) (rs2_field w) (s_immediate w))
    else if opcode == 0x63
    then option_then (branch_op funct3)
        (λ op. b_type op (rs1_field w) (rs2_field w) (b_immediate w))
    else if opcode == 0x6f
    then some (j_type RiOp.jal (rd_field w) (j_immediate w))
    else if opcode == 0x67
    then (if funct3 == 0
        then some (i_type RiOp.jalr (rd_field w) (rs1_field w) (i_immediate w))
        else none)
    else if opcode == 0x37
    then some (u_type RiOp.lui (rd_field w) (u_immediate w))
    else if opcode == 0x17
    then some (u_type RiOp.auipc (rd_field w) (u_immediate w))
    else if opcode == 0x73
    then option_then (system_op w) (λ op. i_type op (rd_field w) (rs1_field w) (i_immediate w))
    else none

unfoldable pub decode : ℕ → Option Instr
unfolding decode_fields
decode w = decode_fields (opcode_field w) (funct3_field w) (funct7_field w) w
