-- ===== src/Codegen/Defs.antt =====
-- src/codegen.c: c_generate. The log that it prints is left out.
use rvcc.Prelude.{ℕ, ◌+◌, Option, none, some, List, [], ◌∷◌, ltb, if◌then◌else◌, length}
use rvcc.Result.{Result, ok, err, ◌>>=◌, Error}
use rvcc.Word.{add32, sub32, neg32}
use rvcc.Il.{CString, IlOp, IlInstr}
use rvcc.Tables.{
  VariableDef, FunctionDef, BlockDef, Tables, at_index, not_null, find_function,
  find_local_variable, find_global_variable,
}
use rvcc.Buffer.{Emit, ◌>>◌, pass, c_emit}
use rvcc.Elf.Defs.{Sections, e_add_symbol, elf_start, header_len}
use rvcc.Backend.Defs.{BackendState, BackendDef}
use rvcc.Codegen.Sizing.{c_size_functions, c_calculate_code_length}

-- What c_generate changes: the globals that it writes, and its local variables.
pub record Gen : Type 0 where
  pub tables : Tables
  pub sections : Sections
  pub bd : Option ℕ
  pub stack_size : ℕ
  pub block_level : ℕ

-- Runs an operation of the backend on the code section.
unfoldable pub emit_code : Emit → Gen → Result Gen
emit_code m g = do
  code ← m g.sections.code
  ok (record g { sections = record (g.sections) { code = code } })

-- _il[i].code_offset
unfoldable pub jump_location : Tables → ℕ → Result ℕ
jump_location t i = do jump_instr ← at_index t.il i; ok jump_instr.code_offset

-- for (pn = 0; ...; pn++) op_store_param(pn, -param_defs[pn].offset)
unfoldable pub store_params : BackendDef → ℕ → List VariableDef → Emit
store_params be pn [] = pass
store_params be pn (var ∷ vars) =
    be.op_store_param pn (neg32 var.offset) >> store_params be (pn + 1) vars

unfoldable pub called_function : IlInstr → Tables → Result FunctionDef
called_function ii t = do name ← not_null ii.string_param1; not_null (find_function name t)

unfoldable pub add_code_symbol : CString → BackendState → Gen → Result Gen
add_code_symbol name state g = do
  s ← e_add_symbol name (length name) (add32 state.code_start state.pc) g.sections
  ok (record g { sections = s })

-- A label with a name becomes a symbol.
unfoldable pub gen_label : Option CString → BackendState → Gen → Result Gen
unfolding add_code_symbol
gen_label none state g = ok g
gen_label (some name) state g = if ltb 0 (length name) then add_code_symbol name state g else ok g

-- The address that op_get_var_addr loads: of a global, else of a local, else of a function.
unfoldable pub function_addr : BackendDef → Option FunctionDef → BackendState → Gen → Result Gen
unfolding emit_code jump_location
function_addr be none state g = err Error.undefined_identifier
function_addr be (some fn) state g = do
  location ← jump_location g.tables fn.entry_point
  emit_code (be.op_get_function_addr state (add32 state.code_start location)) g

unfoldable pub local_addr :
    BackendDef → CString → Option VariableDef → BackendState → Gen → Result Gen
unfolding emit_code function_addr
local_addr be name (some var) state g = emit_code (be.op_get_local_addr state (neg32 var.offset)) g
local_addr be name none state g = function_addr be (find_function name g.tables) state g

unfoldable pub global_addr :
    BackendDef → CString → Option VariableDef → BackendState → Gen → Result Gen
unfolding emit_code local_addr
global_addr be name (some var) state g =
    emit_code (be.op_get_global_addr state (add32 state.data_start var.offset)) g
global_addr be name none state g = do
  var ← find_local_variable name g.bd g.tables
  local_addr be name var state g

unfoldable pub gen_var_addr : BackendDef → CString → BackendState → Gen → Result Gen
unfolding global_addr
gen_var_addr be name state g = do
  var ← find_global_variable name g.tables
  global_addr be name var state g

-- op_jump, op_return, op_function_call: the offset from here to the place of instruction `i`.
unfoldable pub offset_to : BackendState → Gen → ℕ → Result ℕ
unfolding jump_location
offset_to state g i = do location ← jump_location g.tables i; ok (sub32 location state.pc)

-- if (bd->next_local > 0) op_block(len)
unfoldable pub move_stack : BackendDef → BlockDef → ℕ → Gen → Result Gen
unfolding emit_code
move_stack be bd len g = if ltb 0 (length bd.locals) then emit_code (be.op_block len) g else ok g

unfoldable pub gen_block_start : BackendDef → ℕ → Gen → Result Gen
unfolding move_stack
gen_block_start be b g = do
  bd ← at_index g.tables.blocks b
  g' ← move_stack be bd (neg32 bd.locals_size) g
  let deeper = add32 g.stack_size bd.locals_size
  ok (record g' {
    bd = some b;
    stack_size = if ltb 0 (length bd.locals) then deeper else g.stack_size;
    block_level = add32 g.block_level 1;
  })

unfoldable pub gen_block_end : BackendDef → ℕ → Gen → Result Gen
unfolding move_stack
gen_block_end be b g = do
  bd ← at_index g.tables.blocks b
  g' ← move_stack be bd bd.locals_size g
  let shallower = sub32 g.stack_size bd.locals_size
  ok (record g' {
    bd = bd.parent;
    stack_size = if ltb 0 (length bd.locals) then shallower else g.stack_size;
    block_level = sub32 g.block_level 1;
  })

unfoldable pub gen_entry_point : BackendDef → IlInstr → BackendState → Gen → Result Gen
unfolding called_function add_code_symbol emit_code store_params
gen_entry_point be ii state g = do
  name ← not_null ii.string_param1
  fn ← called_function ii g.tables
  g' ← add_code_symbol name state g
  g'' ← emit_code (be.op_entry_point fn.params_size >> store_params be 0 fn.param_defs) g'
  ok (record g'' { stack_size = fn.params_size })

-- The switch of c_generate.
unfoldable pub gen_op : BackendDef → IlOp → IlInstr → BackendState → Gen → Result Gen
unfolding emit_code offset_to called_function
gen_op be IlOp.load_data_address ii state g =
    emit_code (be.op_load_data_address state (add32 state.data_start ii.int_param1)) g
gen_op be IlOp.load_numeric_constant ii state g =
    emit_code (be.op_load_numeric_constant state ii.int_param1) g
gen_op be IlOp.get_var_addr ii state g = do
  name ← not_null ii.string_param1
  gen_var_addr be name state g
gen_op be IlOp.read_addr ii state g = emit_code (be.op_read_addr state ii.int_param2) g
gen_op be IlOp.write_addr ii state g = emit_code (be.op_write_addr state ii.int_param2) g
gen_op be IlOp.jump ii state g = do
  ofs ← offset_to state g ii.int_param1
  emit_code (be.op_jump ofs) g
gen_op be IlOp.return ii state g = do
  fd ← called_function ii g.tables
  ofs ← offset_to state g fd.exit_point
  emit_code (be.op_return ofs) g
gen_op be IlOp.function_call ii state g = do
  fn ← called_function ii g.tables
  ofs ← offset_to state g fn.entry_point
  emit_code (be.op_function_call state ofs) g
gen_op be IlOp.pointer_call ii state g = emit_code (be.op_pointer_call state) g
gen_op be IlOp.push ii state g = emit_code (be.op_push state) g
gen_op be IlOp.pop ii state g = emit_code (be.op_pop state) g
gen_op be IlOp.exit_point ii state g = emit_code be.op_exit_point g
gen_op be IlOp.add ii state g = emit_code (be.op_alu state IlOp.add) g
gen_op be IlOp.sub ii state g = emit_code (be.op_alu state IlOp.sub) g
gen_op be IlOp.mul ii state g = emit_code (be.op_alu state IlOp.mul) g
gen_op be IlOp.negate ii state g = emit_code (be.op_alu state IlOp.negate) g
gen_op be IlOp.label ii state g = gen_label ii.string_param1 state g
gen_op be IlOp.equals ii state g = emit_code (be.op_cmp state IlOp.equals) g
gen_op be IlOp.not_equals ii state g = emit_code (be.op_cmp state IlOp.not_equals) g
gen_op be IlOp.less_than ii state g = emit_code (be.op_cmp state IlOp.less_than) g
gen_op be IlOp.less_eq_than ii state g = emit_code (be.op_cmp state IlOp.less_eq_than) g
gen_op be IlOp.greater_than ii state g = emit_code (be.op_cmp state IlOp.greater_than) g
gen_op be IlOp.greater_eq_than ii state g = emit_code (be.op_cmp state IlOp.greater_eq_than) g
gen_op be IlOp.log_and ii state g = emit_code (be.op_log state IlOp.log_and) g
gen_op be IlOp.log_or ii state g = emit_code (be.op_log state IlOp.log_or) g
gen_op be IlOp.bit_and ii state g = emit_code (be.op_bit state IlOp.bit_and) g
gen_op be IlOp.bit_or ii state g = emit_code (be.op_bit state IlOp.bit_or) g
gen_op be IlOp.bit_lshift ii state g = emit_code (be.op_bit state IlOp.bit_lshift) g
gen_op be IlOp.bit_rshift ii state g = emit_code (be.op_bit state IlOp.bit_rshift) g
gen_op be IlOp.not ii state g = emit_code (be.op_bit state IlOp.not) g
gen_op be IlOp.jz ii state g = do
  ofs ← offset_to state g ii.int_param1
  emit_code (be.op_jz state IlOp.jz (sub32 ofs 4)) g
gen_op be IlOp.jnz ii state g = do
  ofs ← offset_to state g ii.int_param1
  emit_code (be.op_jz state IlOp.jnz (sub32 ofs 4)) g
gen_op be IlOp.generic ii state g = emit_code (c_emit (ok ii.int_param1)) g
gen_op be IlOp.block_start ii state g = gen_block_start be ii.int_param1 g
gen_op be IlOp.block_end ii state g = gen_block_end be ii.int_param1 g
gen_op be IlOp.entry_point ii state g = gen_entry_point be ii state g
gen_op be IlOp.start ii state g = emit_code be.op_start g
gen_op be IlOp.syscall ii state g = emit_code be.op_syscall g
gen_op be IlOp.exit ii state g = emit_code be.op_exit g

-- One round of the main loop.
unfoldable pub gen_instr : BackendDef → ℕ → ℕ → IlInstr → Gen → Result Gen
unfolding gen_op
gen_instr be code_start data_start ii g =
    gen_op be ii.op ii
      (record {
        code_start = code_start;
        data_start = data_start;
        dest_reg = be.c_dest_reg ii.param_no;
        op_reg = be.c_dest_reg ii.int_param1;
        pc = length g.sections.code.bytes;
      })
      g

unfoldable pub gen_loop : BackendDef → ℕ → ℕ → List IlInstr → Gen → Result Gen
unfolding gen_instr
gen_loop be code_start data_start [] g = ok g
gen_loop be code_start data_start (ii ∷ il) g =
    gen_instr be code_start data_start ii g >>= gen_loop be code_start data_start il

abbrev pub code_start_address : ℕ
code_start_address = elf_start + header_len

unfoldable pub c_generate : BackendDef → Tables → Sections → ℕ → Result Gen
unfolding gen_loop
c_generate be t s block_level = do
  (t', code_len) ← c_calculate_code_length be t
  (t'', s') ← c_size_functions (add32 code_start_address code_len) t' s
  gen_loop be code_start_address code_len t''.il
      (record { tables = t''; sections = s'; bd = none; stack_size = 0; block_level = block_level })
