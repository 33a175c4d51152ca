-- ===== src/RiscV/Backend.antt =====
-- src/arch/riscv.c: the operations of the RISC-V backend and r_initialize_backend.
use rvcc.Prelude.{ℕ, ◌+◌, ◌*◌, [], ◌∷◌, Bool, not, ◌&&◌, ltb, ◌==◌, if◌then◌else◌, length}
use rvcc.Result.{Result, ok, ◌>>=◌, Error}
use rvcc.Word.{add32, sub32, neg32, slt32}
use rvcc.Il.{IlOp, IlInstr}
use rvcc.Tables.{Tables, find_function, at_index, not_null}
use rvcc.Buffer.{Emit, ◌>>◌, pass, fail, c_emit}
use rvcc.Backend.Defs.{Arch, BackendState, BackendDef}
use rvcc.RiscV.Opcode.{r_zero, r_ra, r_sp, r_s0, r_a0, r_a1, r_a2, r_a3, r_a7}
use rvcc.RiscV.Encode.{r_hi, r_lo}
use rvcc.RiscV.Asm.{
  r_add, r_sub, r_mul, r_and, r_or, r_sll, r_srl, r_addi, r_sltiu, r_lw, r_lb, r_sw, r_sb, r_beq,
  r_bne, r_blt, r_bge, r_jal, r_jalr, r_lui, r_auipc, r_ecall, r_nop,
}

unfoldable pub r_elf_machine : ℕ
r_elf_machine = 0xf3

unfoldable pub r_elf_flags : ℕ
r_elf_flags = 0x5000200

unfoldable pub r_dest_reg : ℕ → ℕ
r_dest_reg param_no = add32 param_no 10

-- val > -2048 && val < 2047
abbrev pub fits_addi : ℕ → Bool
fits_addi val = slt32 (neg32 2048) val && slt32 val 2047

entry_length : Tables → IlInstr → Result ℕ
entry_length t ii = do
  name ← not_null ii.string_param1
  fn ← not_null (find_function name t)
  ok (16 + length fn.param_defs * 4)

block_length : Tables → IlInstr → Result ℕ
block_length t ii = do
  bd ← at_index t.blocks ii.int_param1
  ok (if ltb 0 (length bd.locals) then 4 else 0)

-- The switch of r_get_code_length.
unfoldable pub r_op_length : IlOp → Tables → IlInstr → Result ℕ
unfolding entry_length block_length
r_op_length IlOp.entry_point t ii = entry_length t ii
r_op_length IlOp.function_call t ii = ok (if not (ii.param_no == 0) then 8 else 4)
r_op_length IlOp.pointer_call t ii = ok (if not (ii.param_no == 0) then 8 else 4)
r_op_length IlOp.load_numeric_constant t ii = ok (if fits_addi ii.int_param1 then 4 else 8)
r_op_length IlOp.block_start t ii = block_length t ii
r_op_length IlOp.block_end t ii = block_length t ii
r_op_length IlOp.equals t ii = ok 16
r_op_length IlOp.not_equals t ii = ok 16
r_op_length IlOp.less_than t ii = ok 16
r_op_length IlOp.less_eq_than t ii = ok 16
r_op_length IlOp.greater_than t ii = ok 16
r_op_length IlOp.greater_eq_than t ii = ok 16
r_op_length IlOp.syscall t ii = ok 20
r_op_length IlOp.exit_point t ii = ok 16
r_op_length IlOp.exit t ii = ok 12
r_op_length IlOp.load_data_address t ii = ok 8
r_op_length IlOp.jz t ii = ok 8
r_op_length IlOp.jnz t ii = ok 8
r_op_length IlOp.push t ii = ok 8
r_op_length IlOp.pop t ii = ok 8
r_op_length IlOp.get_var_addr t ii = ok 8
r_op_length IlOp.start t ii = ok 8
r_op_length IlOp.label t ii = ok 0
r_op_length IlOp.jump t ii = ok 4
r_op_length IlOp.return t ii = ok 4
r_op_length IlOp.generic t ii = ok 4
r_op_length IlOp.add t ii = ok 4
r_op_length IlOp.sub t ii = ok 4
r_op_length IlOp.mul t ii = ok 4
r_op_length IlOp.read_addr t ii = ok 4
r_op_length IlOp.write_addr t ii = ok 4
r_op_length IlOp.log_or t ii = ok 4
r_op_length IlOp.log_and t ii = ok 4
r_op_length IlOp.not t ii = ok 4
r_op_length IlOp.bit_or t ii = ok 4
r_op_length IlOp.bit_and t ii = ok 4
r_op_length IlOp.negate t ii = ok 4
r_op_length IlOp.bit_lshift t ii = ok 4
r_op_length IlOp.bit_rshift t ii = ok 4

unfoldable pub r_get_code_length : Tables → IlInstr → Result ℕ
unfolding r_op_length
r_get_code_length t ii = r_op_length ii.op t ii

unfoldable pub r_op_load_data_address : BackendState → ℕ → Emit
r_op_load_data_address state ofs = do
  c_emit (r_auipc state.dest_reg (r_hi (sub32 ofs state.pc)))
  c_emit (r_addi state.dest_reg state.dest_reg (r_lo (sub32 ofs state.pc)))

unfoldable pub r_op_load_numeric_constant : BackendState → ℕ → Emit
r_op_load_numeric_constant state val =
    if fits_addi val then c_emit (r_addi state.dest_reg r_zero (r_lo val)) else do
      c_emit (r_lui state.dest_reg (r_hi val))
      c_emit (r_addi state.dest_reg state.dest_reg (r_lo val))

unfoldable pub r_op_get_global_addr : BackendState → ℕ → Emit
r_op_get_global_addr state ofs = do
  c_emit (r_auipc state.dest_reg (r_hi (sub32 ofs state.pc)))
  c_emit (r_addi state.dest_reg state.dest_reg (r_lo (sub32 ofs state.pc)))

unfoldable pub r_op_get_local_addr : BackendState → ℕ → Emit
r_op_get_local_addr state offset = do
  c_emit (r_addi state.dest_reg r_s0 0)
  c_emit (r_addi state.dest_reg state.dest_reg offset)

unfoldable pub r_op_get_function_addr : BackendState → ℕ → Emit
r_op_get_function_addr state ofs = do
  c_emit (r_lui state.dest_reg (r_hi ofs))
  c_emit (r_addi state.dest_reg state.dest_reg (r_lo ofs))

unfoldable pub r_op_read_addr : BackendState → ℕ → Emit
r_op_read_addr state len =
    if len == 4
    then c_emit (r_lw state.dest_reg state.op_reg 0)
    else if len == 1
    then c_emit (r_lb state.dest_reg state.op_reg 0)
    else fail Error.unsupported_word_size

unfoldable pub r_op_write_addr : BackendState → ℕ → Emit
r_op_write_addr state len =
    if len == 4
    then c_emit (r_sw state.dest_reg state.op_reg 0)
    else if len == 1
    then c_emit (r_sb state.dest_reg state.op_reg 0)
    else fail Error.unsupported_word_size

unfoldable pub r_op_jump : ℕ → Emit
r_op_jump ofs = c_emit (r_jal r_zero ofs)

unfoldable pub r_op_return : ℕ → Emit
r_op_return ofs = c_emit (r_jal r_zero ofs)

-- Both calls end so: the result is moved to the register that wants it.
abbrev move_result : BackendState → Emit
move_result state =
    if not (state.dest_reg == r_a0) then c_emit (r_addi state.dest_reg r_a0 0) else pass

unfoldable pub r_op_function_call : BackendState → ℕ → Emit
r_op_function_call state ofs = do c_emit (r_jal r_ra ofs); move_result state

unfoldable pub r_op_pointer_call : BackendState → Emit
r_op_pointer_call state = do c_emit (r_jalr r_ra state.op_reg 0); move_result state

unfoldable pub r_op_push : BackendState → Emit
r_op_push state = do c_emit (r_addi r_sp r_sp (neg32 16)); c_emit (r_sw state.dest_reg r_sp 0)

unfoldable pub r_op_pop : BackendState → Emit
r_op_pop state = do c_emit (r_lw state.dest_reg r_sp 0); c_emit (r_addi r_sp r_sp 16)

unfoldable pub r_op_exit_point : Emit
r_op_exit_point = do
  c_emit (r_addi r_sp r_s0 16)
  c_emit (r_lw r_ra r_sp (neg32 8))
  c_emit (r_lw r_s0 r_sp (neg32 4))
  c_emit (r_jalr r_zero r_ra 0)

unfoldable pub r_op_alu : BackendState → IlOp → Emit
r_op_alu state IlOp.add = c_emit (r_add state.dest_reg state.dest_reg state.op_reg)
r_op_alu state IlOp.sub = c_emit (r_sub state.dest_reg state.dest_reg state.op_reg)
r_op_alu state IlOp.mul = c_emit (r_mul state.dest_reg state.dest_reg state.op_reg)
r_op_alu state IlOp.negate = c_emit (r_sub state.dest_reg r_zero state.dest_reg)
r_op_alu state _ = pass

-- The branch of r_op_cmp, over the two instructions that give 0.
unfoldable pub r_cmp_branch : BackendState → IlOp → Emit
r_cmp_branch state IlOp.equals = c_emit (r_beq state.dest_reg state.op_reg 12)
r_cmp_branch state IlOp.not_equals = c_emit (r_bne state.dest_reg state.op_reg 12)
r_cmp_branch state IlOp.less_than = c_emit (r_blt state.dest_reg state.op_reg 12)
r_cmp_branch state IlOp.greater_eq_than = c_emit (r_bge state.dest_reg state.op_reg 12)
r_cmp_branch state IlOp.greater_than = c_emit (r_blt state.op_reg state.dest_reg 12)
r_cmp_branch state IlOp.less_eq_than = c_emit (r_bge state.op_reg state.dest_reg 12)
r_cmp_branch state _ = fail Error.unsupported_conditional_il_op

unfoldable pub r_op_cmp : BackendState → IlOp → Emit
r_op_cmp state op = do
  r_cmp_branch state op
  c_emit (r_addi state.dest_reg r_zero 0)
  c_emit (r_jal r_zero 8)
  c_emit (r_addi state.dest_reg r_zero 1)

unfoldable pub r_op_log : BackendState → IlOp → Emit
r_op_log state IlOp.log_and = c_emit (r_and state.dest_reg state.dest_reg state.op_reg)
r_op_log state IlOp.log_or = c_emit (r_or state.dest_reg state.dest_reg state.op_reg)
r_op_log state _ = pass

unfoldable pub r_op_bit : BackendState → IlOp → Emit
r_op_bit state IlOp.bit_and = c_emit (r_and state.dest_reg state.dest_reg state.op_reg)
r_op_bit state IlOp.bit_or = c_emit (r_or state.dest_reg state.dest_reg state.op_reg)
r_op_bit state IlOp.bit_lshift = c_emit (r_sll state.dest_reg state.dest_reg state.op_reg)
r_op_bit state IlOp.bit_rshift = c_emit (r_srl state.dest_reg state.dest_reg state.op_reg)
r_op_bit state IlOp.not = c_emit (r_sltiu state.dest_reg state.dest_reg 1)
r_op_bit state _ = pass

unfoldable pub near_jz : BackendState → IlOp → ℕ → Emit
near_jz state IlOp.jz ofs = do c_emit r_nop; c_emit (r_beq state.dest_reg r_zero ofs)
near_jz state IlOp.jnz ofs = do c_emit r_nop; c_emit (r_bne state.dest_reg r_zero ofs)
near_jz state _ ofs = pass

unfoldable pub far_jz : BackendState → IlOp → ℕ → Emit
far_jz state IlOp.jz ofs = do c_emit (r_bne state.dest_reg r_zero 8); c_emit (r_jal r_zero ofs)
far_jz state IlOp.jnz ofs = do c_emit (r_beq state.dest_reg r_zero 8); c_emit (r_jal r_zero ofs)
far_jz state _ ofs = pass

-- ofs >= -4096 && ofs <= 4095
abbrev pub is_near : ℕ → Bool
is_near ofs = not (slt32 ofs (neg32 4096)) && not (slt32 4095 ofs)

unfoldable pub r_op_jz : BackendState → IlOp → ℕ → Emit
unfolding near_jz far_jz
r_op_jz state op ofs = if is_near ofs then near_jz state op ofs else far_jz state op ofs

unfoldable pub r_op_block : ℕ → Emit
r_op_block len = c_emit (r_addi r_sp r_sp len)

unfoldable pub r_op_entry_point : ℕ → Emit
r_op_entry_point len = do
  c_emit (r_addi r_sp r_sp (sub32 (neg32 16) len))
  c_emit (r_sw r_s0 r_sp (add32 12 len))
  c_emit (r_sw r_ra r_sp (add32 8 len))
  c_emit (r_addi r_s0 r_sp len)

unfoldable pub r_op_store_param : ℕ → ℕ → Emit
r_op_store_param pn ofs = c_emit (r_sw (r_a0 + pn) r_s0 ofs)

unfoldable pub r_op_start : Emit
r_op_start = do c_emit (r_lw r_a0 r_sp 0); c_emit (r_addi r_a1 r_sp 4)

unfoldable pub r_op_syscall : Emit
r_op_syscall = do
  c_emit (r_addi r_a7 r_a0 0)
  c_emit (r_addi r_a0 r_a1 0)
  c_emit (r_addi r_a1 r_a2 0)
  c_emit (r_addi r_a2 r_a3 0)
  c_emit r_ecall

unfoldable pub r_op_exit : Emit
r_op_exit = do c_emit (r_addi r_a0 r_zero 0); c_emit (r_addi r_a7 r_zero 93); c_emit r_ecall

-- r_initialize_backend
abbrev pub r_backend : BackendDef
r_backend = record {
  arch = Arch.riscv;
  source_define = b'_' ∷ b'_' ∷ b'R' ∷ b'I' ∷ b'S' ∷ b'C' ∷ b'V' ∷ [];
  elf_machine = r_elf_machine;
  elf_flags = r_elf_flags;
  c_dest_reg = r_dest_reg;
  c_get_code_length = r_get_code_length;
  op_load_data_address = r_op_load_data_address;
  op_load_numeric_constant = r_op_load_numeric_constant;
  op_get_global_addr = r_op_get_global_addr;
  op_get_local_addr = r_op_get_local_addr;
  op_get_function_addr = r_op_get_function_addr;
  op_read_addr = r_op_read_addr;
  op_write_addr = r_op_write_addr;
  op_jump = r_op_jump;
  op_return = r_op_return;
  op_function_call = r_op_function_call;
  op_pointer_call = r_op_pointer_call;
  op_push = r_op_push;
  op_pop = r_op_pop;
  op_exit_point = r_op_exit_point;
  op_alu = r_op_alu;
  op_cmp = r_op_cmp;
  op_log = r_op_log;
  op_bit = r_op_bit;
  op_jz = r_op_jz;
  op_block = r_op_block;
  op_entry_point = r_op_entry_point;
  op_store_param = r_op_store_param;
  op_start = r_op_start;
  op_syscall = r_op_syscall;
  op_exit = r_op_exit;
}
