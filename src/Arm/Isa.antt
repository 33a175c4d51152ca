-- ===== src/Arm/Isa.antt =====
-- The A32 instruction set of ARMv7, as far as compilers for integers use it, as the architecture
-- manual lays its instruction words out: what the encoder of src/arch/arm.c is held against. It is
-- written from the encoding tables of the manual and not from the encoder.
use rvcc.Prelude.{
  ℕ, ◌+◌, ◌-◌, ◌*◌, ◌/◌, ◌%◌, ◌^◌, Bool, not, Option, none, some, leb, ltb, ◌==◌, ◌&&◌,
  if◌then◌else◌,
}
use rvcc.Word.{word_mod}

-- The second operand of a data-processing instruction.
pub data Operand : Type 0 where
  immediate : ℕ → Operand
  register : ℕ → Operand
  shifted_left : ℕ → ℕ → Operand
  shifted_right : ℕ → ℕ → Operand

-- An instruction: its condition first. Offsets are 32-bit values, that of a branch counts from
-- eight bytes behind the branch.
pub data Instr : Type 0 where
  data_processing : ℕ → ℕ → Bool → ℕ → ℕ → Operand → Instr
  movw : ℕ → ℕ → ℕ → Instr
  movt : ℕ → ℕ → ℕ → Instr
  mul : ℕ → ℕ → ℕ → ℕ → Instr
  load_store : ℕ → Bool → Bool → Bool → ℕ → ℕ → ℕ → Instr
  branch : ℕ → Bool → ℕ → Instr
  branch_register : ℕ → Bool → ℕ → Instr
  svc : ℕ → ℕ → Instr

-- The bits from `low` on, `count` of them.
abbrev pub field : ℕ → ℕ → ℕ → ℕ
field w low count = w / 2 ^ low % 2 ^ count

abbrev pub bit : ℕ → ℕ → Bool
bit w i = field w i 1 == 1

-- ARMExpandImm: eight bits, rotated to the right by twice the four bits above them.
abbrev pub rotate_right : ℕ → ℕ → ℕ
rotate_right v n = v / 2 ^ n + v % 2 ^ n * 2 ^ (32 - n)

unfoldable pub expand_immediate : ℕ → ℕ
expand_immediate imm12 =
    let n = 2 * (imm12 / 2 ^ 8) in let v = imm12 % 2 ^ 8 in if n == 0 then v else rotate_right v n

-- A value of 26 bits, its sign copied to 32 bits.
abbrev pub sign_extend_26 : ℕ → ℕ
sign_extend_26 x = if ltb x (2 ^ 25) then x else x + (word_mod - 2 ^ 26)

-- Comparisons without flags are other instructions.
abbrev pub is_data_op : ℕ → ℕ → Bool
is_data_op op s = if leb 8 op && ltb op 12 then s == 1 else leb s 1

unfoldable pub decode_immediate : ℕ → Option Instr
unfolding expand_immediate
decode_immediate w =
    let imm16 = field w 16 4 * 2 ^ 12 + field w 0 12 in
    if field w 20 5 == 0x10
    then some (movw (field w 28 4) (field w 12 4) imm16)
    else if field w 20 5 == 0x14
    then some (movt (field w 28 4) (field w 12 4) imm16)
    else if is_data_op (field w 21 4) (field w 20 1)
    then some (
        data_processing (field w 28 4) (field w 21 4) (bit w 20) (field w 16 4) (field w 12 4)
          (immediate (expand_immediate (field w 0 12))))
    else none

abbrev pub with_operand : ℕ → Operand → Option Instr
with_operand w o =
    if is_data_op (field w 21 4) (field w 20 1)
    then some
        (data_processing (field w 28 4) (field w 21 4) (bit w 20) (field w 16 4) (field w 12 4) o)
    else none

unfoldable pub decode_register : ℕ → Option Instr
decode_register w =
    if field w 4 21 == 0x12fff1
    then some (branch_register (field w 28 4) (bit w 5) (field w 0 4))
    else if field w 4 21 == 0x12fff3
    then some (branch_register (field w 28 4) (bit w 5) (field w 0 4))
    else if field w 4 4 == 9 && field w 20 5 == 0
    then some (mul (field w 28 4) (field w 16 4) (field w 8 4) (field w 0 4))
    else if field w 4 8 == 0
    then with_operand w (register (field w 0 4))
    else if field w 4 4 == 1
    then with_operand w (shifted_left (field w 0 4) (field w 8 4))
    else if field w 4 4 == 3
    then with_operand w (shifted_right (field w 0 4) (field w 8 4))
    else none

-- Only offset addressing without write-back.
unfoldable pub decode_load_store : ℕ → Option Instr
decode_load_store w =
    if bit w 24 && not (bit w 21)
    then some (
        load_store (field w 28 4) (bit w 20) (bit w 22) (bit w 23) (field w 16 4) (field w 12 4)
          (field w 0 12))
    else none

unfoldable pub decode_class : ℕ → ℕ → Option Instr
unfolding decode_register decode_immediate decode_load_store
decode_class class w =
    if class == 0
    then decode_register w
    else if class == 1
    then decode_immediate w
    else if class == 2
    then decode_load_store w
    else if class == 5
    then some (branch (field w 28 4) (bit w 24) (sign_extend_26 (field w 0 24 * 4)))
    else if class == 7 && bit w 24
    then some (svc (field w 28 4) (field w 0 24))
    else none

-- The condition 15 is taken by other instructions.
unfoldable pub decode : ℕ → Option Instr
unfolding decode_class
decode w = if field w 28 4 == 15 then none else decode_class (field w 25 3) w
