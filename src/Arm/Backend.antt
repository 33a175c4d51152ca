-- ===== src/Arm/Backend.antt =====
-- src/arch/arm.c: the operations of the ARM backend and a_initialize_backend.
use rvcc.Prelude.{ℕ, ◌+◌, ◌*◌, [], ◌∷◌, Bool, not, ◌&&◌, ltb, ◌==◌, if◌then◌else◌, length}
use rvcc.Result.{Result, ok, ◌>>=◌, Error}
use rvcc.Word.{add32, sub32, neg32, mask32, slt32}
use rvcc.Il.{IlOp, IlInstr}
use rvcc.Tables.{Tables, find_function, at_index, not_null}
use rvcc.Buffer.{Emit, ◌>>◌, pass, fail, c_emit}
use rvcc.Backend.Defs.{Arch, BackendState, BackendDef}
use rvcc.Arm.Opcode.{ArCond, a_get_cond, a_r0, a_r1, a_r2, a_r3, a_r7, a_s0, a_sp, a_lr, a_pc}
use rvcc.Arm.Encode.{a_movw, a_movt}
use rvcc.Arm.Asm.{
  a_swi, a_and_r, a_or_r, a_mov_i, a_mov_r, a_srl, a_sll, a_add_i, a_add_r, a_sub_r, a_zero, a_lw,
  a_lb, a_sw, a_sb, a_b, a_bl, a_blx, a_mul, a_rsb_i, a_cmp_r, a_teq,
}

unfoldable pub a_elf_machine : ℕ
a_elf_machine = 0x28

unfoldable pub a_elf_flags : ℕ
a_elf_flags = 0x5000200

unfoldable pub a_dest_reg : ℕ → ℕ
a_dest_reg param_no = param_no

-- val >= 0 && val < 256
abbrev pub fits_mov : ℕ → Bool
fits_mov val = not (slt32 val 0) && slt32 val 256

entry_length : Tables → IlInstr → Result ℕ
entry_length t ii = do
  name ← not_null ii.string_param1
  fn ← not_null (find_function name t)
  ok (16 + length fn.param_defs * 4)

block_length : Tables → IlInstr → Result ℕ
block_length t ii = do
  bd ← at_index t.blocks ii.int_param1
  ok (if ltb 0 (length bd.locals) then 4 else 0)

-- The switch of a_get_code_length.
unfoldable pub a_op_length : IlOp → Tables → IlInstr → Result ℕ
unfolding entry_length block_length
a_op_length IlOp.entry_point t ii = entry_length t ii
a_op_length IlOp.function_call t ii = ok (if not (ii.param_no == 0) then 8 else 4)
a_op_length IlOp.pointer_call t ii = ok (if not (ii.param_no == 0) then 8 else 4)
a_op_length IlOp.load_numeric_constant t ii = ok (if fits_mov ii.int_param1 then 4 else 8)
a_op_length IlOp.block_start t ii = block_length t ii
a_op_length IlOp.block_end t ii = block_length t ii
a_op_length IlOp.equals t ii = ok 12
a_op_length IlOp.not_equals t ii = ok 12
a_op_length IlOp.less_than t ii = ok 12
a_op_length IlOp.less_eq_than t ii = ok 12
a_op_length IlOp.greater_than t ii = ok 12
a_op_length IlOp.greater_eq_than t ii = ok 12
a_op_length IlOp.syscall t ii = ok 20
a_op_length IlOp.exit_point t ii = ok 16
a_op_length IlOp.exit t ii = ok 12
a_op_length IlOp.load_data_address t ii = ok 8
a_op_length IlOp.jz t ii = ok 8
a_op_length IlOp.jnz t ii = ok 8
a_op_length IlOp.push t ii = ok 8
a_op_length IlOp.pop t ii = ok 8
a_op_length IlOp.get_var_addr t ii = ok 8
a_op_length IlOp.start t ii = ok 8
a_op_length IlOp.jump t ii = ok 4
a_op_length IlOp.return t ii = ok 4
a_op_length IlOp.generic t ii = ok 4
a_op_length IlOp.add t ii = ok 4
a_op_length IlOp.sub t ii = ok 4
a_op_length IlOp.mul t ii = ok 4
a_op_length IlOp.read_addr t ii = ok 4
a_op_length IlOp.write_addr t ii = ok 4
a_op_length IlOp.log_or t ii = ok 4
a_op_length IlOp.log_and t ii = ok 4
a_op_length IlOp.not t ii = ok 4
a_op_length IlOp.bit_or t ii = ok 4
a_op_length IlOp.bit_and t ii = ok 4
a_op_length IlOp.negate t ii = ok 4
a_op_length IlOp.bit_lshift t ii = ok 4
a_op_length IlOp.bit_rshift t ii = ok 4
a_op_length IlOp.label t ii = ok 0

unfoldable pub a_get_code_length : Tables → IlInstr → Result ℕ
unfolding a_op_length
a_get_code_length t ii = a_op_length ii.op t ii

-- movw and movt, which three operations use.
abbrev load_address : BackendState → ℕ → Emit
load_address state ofs = do
  c_emit (a_movw ArCond.al state.dest_reg ofs)
  c_emit (a_movt ArCond.al state.dest_reg ofs)

unfoldable pub a_op_load_data_address : BackendState → ℕ → Emit
a_op_load_data_address state ofs = load_address state (add32 ofs state.code_start)

unfoldable pub a_op_load_numeric_constant : BackendState → ℕ → Emit
a_op_load_numeric_constant state val =
    if fits_mov val then c_emit (a_mov_i ArCond.al state.dest_reg val) else do
      c_emit (a_movw ArCond.al state.dest_reg val)
      c_emit (a_movt ArCond.al state.dest_reg val)

unfoldable pub a_op_get_global_addr : BackendState → ℕ → Emit
a_op_get_global_addr state ofs = load_address state (add32 ofs state.code_start)

unfoldable pub a_op_get_local_addr : BackendState → ℕ → Emit
a_op_get_local_addr state offset = do
  c_emit (a_add_i ArCond.al state.dest_reg a_s0 (mask32 offset 256))
  c_emit (a_add_i ArCond.al state.dest_reg state.dest_reg (sub32 offset (mask32 offset 256)))

unfoldable pub a_op_get_function_addr : BackendState → ℕ → Emit
a_op_get_function_addr state ofs = load_address state ofs

unfoldable pub a_op_read_addr : BackendState → ℕ → Emit
a_op_read_addr state len =
    if len == 4
    then c_emit (a_lw ArCond.al state.dest_reg state.op_reg 0)
    else if len == 1
    then c_emit (a_lb ArCond.al state.dest_reg state.op_reg 0)
    else fail Error.unsupported_word_size

unfoldable pub a_op_write_addr : BackendState → ℕ → Emit
a_op_write_addr state len =
    if len == 4
    then c_emit (a_sw ArCond.al state.dest_reg state.op_reg 0)
    else if len == 1
    then c_emit (a_sb ArCond.al state.dest_reg state.op_reg 0)
    else fail Error.unsupported_word_size

unfoldable pub a_op_jump : ℕ → Emit
a_op_jump ofs = c_emit (a_b ArCond.al ofs)

unfoldable pub a_op_return : ℕ → Emit
a_op_return ofs = c_emit (a_b ArCond.al ofs)

abbrev move_result : BackendState → Emit
move_result state =
    if not (state.dest_reg == a_r0) then c_emit (a_mov_r ArCond.al state.dest_reg a_r0) else pass

unfoldable pub a_op_function_call : BackendState → ℕ → Emit
a_op_function_call state ofs = do c_emit (a_bl ArCond.al ofs); move_result state

unfoldable pub a_op_pointer_call : BackendState → Emit
a_op_pointer_call state = do c_emit (a_blx ArCond.al state.op_reg); move_result state

unfoldable pub a_op_push : BackendState → Emit
a_op_push state = do
  c_emit (a_add_i ArCond.al a_sp a_sp (neg32 16))
  c_emit (a_sw ArCond.al state.dest_reg a_sp 0)

unfoldable pub a_op_pop : BackendState → Emit
a_op_pop state = do
  c_emit (a_lw ArCond.al state.dest_reg a_sp 0)
  c_emit (a_add_i ArCond.al a_sp a_sp 16)

unfoldable pub a_op_exit_point : Emit
a_op_exit_point = do
  c_emit (a_add_i ArCond.al a_sp a_s0 16)
  c_emit (a_lw ArCond.al a_lr a_sp (neg32 8))
  c_emit (a_lw ArCond.al a_s0 a_sp (neg32 4))
  c_emit (a_mov_r ArCond.al a_pc a_lr)

unfoldable pub a_op_alu : BackendState → IlOp → Emit
a_op_alu state IlOp.add = c_emit (a_add_r ArCond.al state.dest_reg state.dest_reg state.op_reg)
a_op_alu state IlOp.sub = c_emit (a_sub_r ArCond.al state.dest_reg state.dest_reg state.op_reg)
a_op_alu state IlOp.mul = c_emit (a_mul ArCond.al state.dest_reg state.dest_reg state.op_reg)
a_op_alu state IlOp.negate = c_emit (a_rsb_i ArCond.al state.dest_reg 0 state.dest_reg)
a_op_alu state _ = pass

-- What a_op_cmp emits, once the condition is known.
abbrev pub set_on : BackendState → ArCond → Emit
set_on state cond = do
  c_emit (a_cmp_r ArCond.al state.dest_reg state.dest_reg state.op_reg)
  c_emit (a_zero state.dest_reg)
  c_emit (a_mov_i cond state.dest_reg 1)

unfoldable pub a_op_cmp : BackendState → IlOp → Emit
unfolding a_get_cond
a_op_cmp state op b = do cond ← a_get_cond op; set_on state cond b

unfoldable pub a_op_log : BackendState → IlOp → Emit
a_op_log state IlOp.log_and = c_emit (a_and_r ArCond.al state.dest_reg state.dest_reg state.op_reg)
a_op_log state IlOp.log_or = c_emit (a_or_r ArCond.al state.dest_reg state.dest_reg state.op_reg)
a_op_log state _ = pass

unfoldable pub a_op_bit : BackendState → IlOp → Emit
a_op_bit state IlOp.bit_and = c_emit (a_and_r ArCond.al state.dest_reg state.dest_reg state.op_reg)
a_op_bit state IlOp.bit_or = c_emit (a_or_r ArCond.al state.dest_reg state.dest_reg state.op_reg)
a_op_bit state IlOp.bit_lshift = c_emit (a_sll ArCond.al state.dest_reg state.dest_reg state.op_reg)
a_op_bit state IlOp.bit_rshift = c_emit (a_srl ArCond.al state.dest_reg state.dest_reg state.op_reg)
a_op_bit state IlOp.not = c_emit (a_rsb_i ArCond.al state.dest_reg 1 state.dest_reg)
a_op_bit state _ = pass

-- if (op == op_jz) ac_eq else ac_ne
abbrev pub jump_cond : IlOp → ArCond
jump_cond IlOp.jz = ArCond.eq
jump_cond _ = ArCond.ne

unfoldable pub a_op_jz : BackendState → IlOp → ℕ → Emit
a_op_jz state op ofs = do c_emit (a_teq state.dest_reg); c_emit (a_b (jump_cond op) ofs)

unfoldable pub a_op_block : ℕ → Emit
a_op_block len = c_emit (a_add_i ArCond.al a_sp a_sp len)

unfoldable pub a_op_entry_point : ℕ → Emit
a_op_entry_point len = do
  c_emit (a_add_i ArCond.al a_sp a_sp (sub32 (neg32 16) len))
  c_emit (a_sw ArCond.al a_s0 a_sp (add32 12 len))
  c_emit (a_sw ArCond.al a_lr a_sp (add32 8 len))
  c_emit (a_add_i ArCond.al a_s0 a_sp len)

unfoldable pub a_op_store_param : ℕ → ℕ → Emit
a_op_store_param pn ofs = c_emit (a_sw ArCond.al (a_r0 + pn) a_s0 ofs)

unfoldable pub a_op_start : Emit
a_op_start = do c_emit (a_lw ArCond.al a_r0 a_sp 0); c_emit (a_add_i ArCond.al a_r1 a_sp 4)

unfoldable pub a_op_syscall : Emit
a_op_syscall = do
  c_emit (a_mov_r ArCond.al a_r7 a_r0)
  c_emit (a_mov_r ArCond.al a_r0 a_r1)
  c_emit (a_mov_r ArCond.al a_r1 a_r2)
  c_emit (a_mov_r ArCond.al a_r2 a_r3)
  c_emit a_swi

unfoldable pub a_op_exit : Emit
a_op_exit = do c_emit (a_mov_i ArCond.al a_r0 0); c_emit (a_mov_i ArCond.al a_r7 1); c_emit a_swi

-- a_initialize_backend
abbrev pub a_backend : BackendDef
a_backend = record {
  arch = Arch.arm;
  source_define = b'_' ∷ b'_' ∷ b'A' ∷ b'R' ∷ b'M' ∷ [];
  elf_machine = a_elf_machine;
  elf_flags = a_elf_flags;
  c_dest_reg = a_dest_reg;
  c_get_code_length = a_get_code_length;
  op_load_data_address = a_op_load_data_address;
  op_load_numeric_constant = a_op_load_numeric_constant;
  op_get_global_addr = a_op_get_global_addr;
  op_get_local_addr = a_op_get_local_addr;
  op_get_function_addr = a_op_get_function_addr;
  op_read_addr = a_op_read_addr;
  op_write_addr = a_op_write_addr;
  op_jump = a_op_jump;
  op_return = a_op_return;
  op_function_call = a_op_function_call;
  op_pointer_call = a_op_pointer_call;
  op_push = a_op_push;
  op_pop = a_op_pop;
  op_exit_point = a_op_exit_point;
  op_alu = a_op_alu;
  op_cmp = a_op_cmp;
  op_log = a_op_log;
  op_bit = a_op_bit;
  op_jz = a_op_jz;
  op_block = a_op_block;
  op_entry_point = a_op_entry_point;
  op_store_param = a_op_store_param;
  op_start = a_op_start;
  op_syscall = a_op_syscall;
  op_exit = a_op_exit;
}
