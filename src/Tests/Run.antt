-- ===== src/Tests/Run.antt =====
-- The emitted code of single operations, run.
use rvcc.Prelude.{ℕ, ◌≡◌, refl, arith, ltb, true, ◌==◌, if◌then◌else◌}
use rvcc.Word.{sub32}
use rvcc.Il.{IlOp}
use rvcc.Buffer.{Emit, e_write_byte, e_extract_byte, e_write_int, c_emit}
use rvcc.RiscV.Opcode.{ri_op, r_sp}
use rvcc.RiscV.Encode.{
  r_encode_R, r_encode_I, r_encode_S, r_encode_B, r_encode_J, r_encode_U, r_extract_bits, r_hi,
  r_lo,
}
use rvcc.RiscV.Asm.{r_addi, r_blt, r_jal, r_sub, r_sltiu, r_and, r_lui, r_auipc, r_lw, r_sw, r_beq}
use rvcc.RiscV.Backend.{
  r_op_cmp, r_cmp_branch, r_op_alu, r_op_bit, r_op_log, r_op_jz, near_jz, far_jz,
  r_op_load_numeric_constant, r_op_load_data_address, r_op_get_function_addr, r_op_push, r_op_pop,
}
use rvcc.RiscV.Machine.{Machine, set_reg}
use rvcc.RiscV.Machine.Code.{Runs, Holds}
use rvcc.RiscV.Run.Arith.{r_op_alu-Runs, r_op_bit-Runs, r_op_log-Runs}
use rvcc.RiscV.Run.Compare.{compared, r_op_cmp-Runs}
use rvcc.RiscV.Run.Constant.{
  loaded_with, r_op_load_numeric_constant-Runs, r_op_load_data_address-Runs,
  r_op_get_function_addr-Runs,
}
use rvcc.RiscV.Run.Jump.{at_pc, r_op_jz-Runs}
use rvcc.RiscV.Run.Stack.{pushed, popped, r_op_pop-r_op_push}
use rvcc.Tests.Fixture.{state_of, machine_of, holds, empty_buffer, written_by}

-- Register a0 holds 1, the stack pointer is 4096, and the others hold 0.
abbrev regs : ℕ → ℕ
regs r = if r == 10 then 1 else if r == 2 then 4096 else 0

abbrev r_op_cmp_code : Emit
r_op_cmp_code = r_op_cmp (state_of 10 11) IlOp.greater_than

r_op_cmp-Runs_example :
    Runs (machine_of r_op_cmp_code regs) (compared (machine_of r_op_cmp_code regs) 10 true 16)
unfolding r_op_cmp r_cmp_branch r_addi r_blt r_jal c_emit e_write_int e_write_byte e_extract_byte
    r_encode_R r_encode_I r_encode_S r_encode_B r_encode_J r_encode_U r_extract_bits ri_op
r_op_cmp-Runs_example =
    r_op_cmp-Runs (state_of 10 11) IlOp.greater_than (machine_of r_op_cmp_code regs) (omega arith)
      (omega arith) tt (holds r_op_cmp_code regs refl (omega arith)) (omega arith)

abbrev r_op_alu_code : Emit
r_op_alu_code = r_op_alu (state_of 10 11) IlOp.negate

r_op_alu-Runs_example :
    Runs (machine_of r_op_alu_code regs) (set_reg (machine_of r_op_alu_code regs) 10 0xffffffff)
unfolding r_op_alu r_sub c_emit e_write_int e_write_byte e_extract_byte r_encode_R r_encode_I
    r_encode_S r_encode_B r_encode_J r_encode_U r_extract_bits ri_op
r_op_alu-Runs_example =
    r_op_alu-Runs (state_of 10 11) IlOp.negate (machine_of r_op_alu_code regs) (omega arith)
      (omega arith) tt (holds r_op_alu_code regs refl (omega arith))

abbrev r_op_bit_code : Emit
r_op_bit_code = r_op_bit (state_of 10 11) IlOp.not

r_op_bit-Runs_example :
    Runs (machine_of r_op_bit_code regs) (set_reg (machine_of r_op_bit_code regs) 10 0)
unfolding r_op_bit r_sltiu c_emit e_write_int e_write_byte e_extract_byte r_encode_R r_encode_I
    r_encode_S r_encode_B r_encode_J r_encode_U r_extract_bits ri_op
r_op_bit-Runs_example =
    r_op_bit-Runs (state_of 10 11) IlOp.not (machine_of r_op_bit_code regs) (omega arith)
      (omega arith) tt (omega arith) (holds r_op_bit_code regs refl (omega arith))

abbrev r_op_log_code : Emit
r_op_log_code = r_op_log (state_of 10 11) IlOp.log_and

r_op_log-Runs_example :
    Runs (machine_of r_op_log_code regs) (set_reg (machine_of r_op_log_code regs) 10 0)
unfolding r_op_log r_and c_emit e_write_int e_write_byte e_extract_byte r_encode_R r_encode_I
    r_encode_S r_encode_B r_encode_J r_encode_U r_extract_bits ri_op
r_op_log-Runs_example =
    r_op_log-Runs (state_of 10 11) IlOp.log_and (machine_of r_op_log_code regs) (omega arith)
      (omega arith) tt (omega arith) (omega arith) (holds r_op_log_code regs refl (omega arith))

abbrev r_op_load_numeric_constant_code : Emit
r_op_load_numeric_constant_code = r_op_load_numeric_constant (state_of 10 11) 0x12345fff

r_op_load_numeric_constant-Runs_example :
    Runs
      (machine_of r_op_load_numeric_constant_code regs)
      (loaded_with (machine_of r_op_load_numeric_constant_code regs) 10 0x12345fff 8)
unfolding r_op_load_numeric_constant r_lui r_addi r_hi r_lo c_emit e_write_int e_write_byte
    e_extract_byte r_encode_R r_encode_I r_encode_S r_encode_B r_encode_J r_encode_U r_extract_bits
    ri_op
r_op_load_numeric_constant-Runs_example =
    r_op_load_numeric_constant-Runs (state_of 10 11) 0x12345fff
      (machine_of r_op_load_numeric_constant_code regs) (omega arith) (omega arith) (omega arith)
      (holds r_op_load_numeric_constant_code regs refl (omega arith)) (omega arith)

abbrev r_op_load_data_address_code : Emit
r_op_load_data_address_code = r_op_load_data_address (state_of 10 11) 0x1234

r_op_load_data_address-Runs_example :
    Runs
      (machine_of r_op_load_data_address_code regs)
      (loaded_with (machine_of r_op_load_data_address_code regs) 10 0x1234 8)
unfolding r_op_load_data_address r_auipc r_addi r_hi r_lo c_emit e_write_int e_write_byte
    e_extract_byte r_encode_R r_encode_I r_encode_S r_encode_B r_encode_J r_encode_U r_extract_bits
    ri_op
r_op_load_data_address-Runs_example =
    r_op_load_data_address-Runs (state_of 10 11) 0x1234 0
      (machine_of r_op_load_data_address_code regs) (omega arith) (omega arith) (omega arith)
      (omega arith) refl (holds r_op_load_data_address_code regs refl (omega arith)) (omega arith)

abbrev r_op_get_function_addr_code : Emit
r_op_get_function_addr_code = r_op_get_function_addr (state_of 10 11) 0x10854

r_op_get_function_addr-Runs_example :
    Runs
      (machine_of r_op_get_function_addr_code regs)
      (loaded_with (machine_of r_op_get_function_addr_code regs) 10 0x10854 8)
unfolding r_op_get_function_addr r_lui r_addi r_hi r_lo c_emit e_write_int e_write_byte
    e_extract_byte r_encode_R r_encode_I r_encode_S r_encode_B r_encode_J r_encode_U r_extract_bits
    ri_op
r_op_get_function_addr-Runs_example =
    r_op_get_function_addr-Runs (state_of 10 11) 0x10854
      (machine_of r_op_get_function_addr_code regs) (omega arith) (omega arith) (omega arith)
      (holds r_op_get_function_addr_code regs refl (omega arith)) (omega arith)

abbrev r_op_jz_code : Emit
r_op_jz_code = r_op_jz (state_of 10 11) IlOp.jnz (sub32 (sub32 0x8000 0) 4)

r_op_jz-Runs_example :
    Runs (machine_of r_op_jz_code regs) (at_pc (machine_of r_op_jz_code regs) 0x8000)
unfolding r_op_jz near_jz far_jz r_beq r_jal c_emit e_write_int e_write_byte e_extract_byte
    r_encode_R r_encode_I r_encode_S r_encode_B r_encode_J r_encode_U r_extract_bits ri_op
r_op_jz-Runs_example =
    r_op_jz-Runs (state_of 10 11) IlOp.jnz 0x8000 0 (machine_of r_op_jz_code regs) (omega arith) tt
      (omega arith) (omega arith) ((omega arith, refl), refl) refl
      (holds r_op_jz_code regs refl (omega arith)) (omega arith)

abbrev push_code : Emit
push_code = r_op_push (state_of 10 11)

abbrev pop_code : Emit
pop_code = r_op_pop (state_of 12 11)

-- The machine after the push, with the code of the pop at its program counter.
abbrev after_push : Machine
after_push = record {
  reg = (pushed (machine_of push_code regs) 10).reg;
  mem = λ a.
      if ltb a 64
      then (machine_of pop_code regs).mem a
      else (pushed (machine_of push_code regs) 10).mem a;
  pc = 0;
}

pop_code-Holds : Holds pop_code after_push
unfolding r_op_pop r_op_push r_addi r_lw r_sw c_emit e_write_int e_write_byte e_extract_byte
    r_encode_I r_encode_S r_extract_bits ri_op
pop_code-Holds = record {
  before = empty_buffer;
  after = written_by pop_code;
  emitted = refl;
  loaded = (refl, (refl, (refl, (refl, (refl, (refl, (refl, (refl, tt))))))));
  fits = omega arith;
}

r_op_pop-r_op_push_example :
    Runs (machine_of push_code regs) (pushed (machine_of push_code regs) 10)
    × Runs after_push (popped after_push 12)
    × ((popped after_push 12).reg 12 ≡ 1)
    × ((popped after_push 12).reg r_sp ≡ 4096)
unfolding r_op_pop r_op_push r_addi r_lw r_sw c_emit e_write_int e_write_byte e_extract_byte
    r_encode_I r_encode_S r_extract_bits ri_op
r_op_pop-r_op_push_example =
    r_op_pop-r_op_push (state_of 10 11) (state_of 12 11) (machine_of push_code regs) after_push
      (omega arith) (omega arith) (omega arith) (omega arith) (omega arith)
      (holds push_code regs refl (omega arith)) (omega arith) (omega arith) (omega arith) refl refl
      pop_code-Holds (omega arith)
