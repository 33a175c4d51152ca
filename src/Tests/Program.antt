-- ===== src/Tests/Program.antt =====
-- A program of four instructions, generated for RISC-V.
use rvcc.Prelude.{
  zero, suc, Option, some, ap, ◌∙◌, ℕ, none, [], ◌∷◌, ◌≡◌, ◌≢◌, refl, arith, length, ◌+◌, ◌%◌, ◌≤◌,
  ◌<◌,
}
use rvcc.Result.{Result, ok, err, Error}
use rvcc.Il.{IlOp, IlInstr, same_string}
use rvcc.Buffer.{e_write_byte, e_extract_byte, e_write_int, c_emit}
use rvcc.Elf.Defs.{Sections}
use rvcc.Tables.{
  BlockDef, FunctionDef, VariableDef, TypeDef, BaseType, Tables, find_type, size_variable, find_by,
}
use rvcc.Backend.Defs.{BackendState}
use rvcc.RiscV.Opcode.{ri_op}
use rvcc.RiscV.Encode.{r_encode_I, r_encode_J, r_encode_U, r_extract_bits, r_hi, r_lo}
use rvcc.RiscV.Asm.{r_addi, r_jal, r_lui, r_lw, r_ecall}
use rvcc.RiscV.Backend.{
  r_backend, r_get_code_length, r_op_length, r_dest_reg, r_op_load_numeric_constant, r_op_jump,
  r_op_start, r_op_exit,
}
use rvcc.RiscV.Length.{r_backend-BackendLaws}
use rvcc.Codegen.Sizing.{
  c_size_block, c_size_functions, size_functions, size_blocks, place_globals, calculate_from,
  c_calculate_code_length, place_variables, align_16, frame_size, c_size_function,
}
use rvcc.Codegen.Defs.{
  Gen, emit_code, jump_location, offset_to, gen_op, gen_instr, gen_loop, c_generate,
  code_start_address,
}
use rvcc.Codegen.Placement.{AllPlaced, c_generate-AllPlaced}
use rvcc.Codegen.Fuel.{ParentsFirst, c_size_block-fuel}
use rvcc.Codegen.Frames.{Tiles, sum_sizes, c_size_function-Tiles}
use rvcc.Codegen.Growth.{Grows, Grows-gen_op}
use rvcc.Codegen.Shape.{Sized, Sized-c_size_functions}
use rvcc.Tests.Fixture.{empty_buffer}

abbrev pub no_sections : Sections
no_sections = record {
  code = empty_buffer;
  data_ = empty_buffer;
  symtab = empty_buffer;
  strtab = empty_buffer;
  header = empty_buffer;
  footer = empty_buffer;
  symbol_idx = 0;
}

abbrev instr : IlOp → ℕ → ℕ → IlInstr
instr op i param = record {
  op = op;
  op_len = 0;
  il_index = i;
  code_offset = 0;
  param_no = 0;
  int_param1 = param;
  int_param2 = 0;
  string_param1 = none;
}

abbrev char_type : TypeDef
char_type = record { type_name = b'c' ∷ []; base_type = BaseType.char; size = 1; fields = [] }

abbrev variable : ℕ → ℕ → VariableDef
variable name pointer = record {
  type_name = b'c' ∷ [];
  variable_name = name ∷ [];
  is_pointer = pointer;
  is_function = 0;
  array_size = 0;
  offset = 0;
}

-- f(char a, char *b)
abbrev two_params : FunctionDef
two_params = record {
  return_def = variable b'f' 0;
  param_defs = variable b'a' 0 ∷ variable b'b' 1 ∷ [];
  entry_point = 0;
  exit_point = 0;
  params_size = 0;
}

abbrev pub tables : Tables
tables = record {
  types = char_type ∷ [];
  functions = two_params ∷ [];
  blocks =
      record { locals = []; parent = none; function = none; locals_size = 0; bd_index = 0 } ∷ [];
  il =
      instr IlOp.start 0 0
      ∷ instr IlOp.load_numeric_constant 1 0x12345
      ∷ instr IlOp.jump 2 3
      ∷ instr IlOp.exit 3 0
      ∷ [];
  aliases = [];
  constants = [];
}

abbrev generated_or : Gen → Result Gen → Gen
generated_or g (ok g') = g'
generated_or g (err e) = g

abbrev generated : Gen
generated =
    generated_or
      (record {
        tables = tables;
        sections = no_sections;
        bd = none;
        stack_size = 0;
        block_level = 0;
      })
      (c_generate r_backend tables no_sections 0)

c_generate-AllPlaced_example :
    (p : Tables × ℕ) × (c_calculate_code_length r_backend tables ≡ ok p)
    × (generated.tables.il ≡ p.0.il)
    × (length generated.sections.code.bytes ≡ p.1)
    × AllPlaced r_backend code_start_address p.1 generated.tables.il generated.sections.code
unfolding c_generate c_calculate_code_length calculate_from c_size_functions size_functions
    size_blocks place_globals gen_loop gen_instr gen_op offset_to jump_location emit_code
    r_get_code_length r_op_length r_dest_reg r_op_load_numeric_constant r_op_jump r_op_start
    r_op_exit r_addi r_jal r_lui r_lw r_ecall r_hi r_lo c_emit e_write_int e_write_byte
    e_extract_byte r_encode_I r_encode_J r_encode_U r_extract_bits ri_op c_size_function
    place_variables size_variable find_type find_by same_string frame_size align_16
c_generate-AllPlaced_example =
    c_generate-AllPlaced r_backend r_backend-BackendLaws tables no_sections 0 generated
      (omega arith, (omega arith, (omega arith, (omega arith, tt)))) refl (omega arith) refl

abbrev sized_params : FunctionDef
sized_params = record two_params {
  param_defs =
      record (variable b'a' 0) { offset = 1 } ∷ record (variable b'b' 1) { offset = 5 } ∷ [];
  params_size = 16;
}

c_size_function-Tiles_example :
    Tiles tables 0 sized_params.param_defs (sum_sizes tables two_params.param_defs)
    × (sum_sizes tables two_params.param_defs ≤ sized_params.params_size)
    × (sized_params.params_size < sum_sizes tables two_params.param_defs + 16)
    × (sized_params.params_size % 16 ≡ 0)
    × (sized_params.params_size < 2048)
unfolding c_size_function place_variables size_variable find_type find_by same_string frame_size
    align_16
c_size_function-Tiles_example =
    c_size_function-Tiles tables two_params sized_params (omega arith) refl

abbrev sized : Tables
sized = record tables { functions = sized_params ∷ [] }

Sized-c_size_functions_example : Sized tables sized × (no_sections.code ≡ no_sections.code)
unfolding c_size_functions size_functions size_blocks place_globals c_size_function place_variables
    size_variable find_type find_by same_string frame_size align_16
Sized-c_size_functions_example =
    Sized-c_size_functions 0x20000 tables no_sections (sized, no_sections) refl

abbrev push_state : BackendState
push_state = record { code_start = 0; data_start = 0; dest_reg = 10; op_reg = 11; pc = 0 }

abbrev start_gen : Gen
start_gen = record {
  tables = tables;
  sections = no_sections;
  bd = none;
  stack_size = 0;
  block_level = 0;
}

Grows-gen_op_example :
    Grows 8 start_gen (gen_op r_backend IlOp.push (instr IlOp.push 0 0) push_state start_gen)
unfolding r_get_code_length r_op_length r_dest_reg
Grows-gen_op_example =
    Grows-gen_op r_backend r_backend-BackendLaws IlOp.push (instr IlOp.push 0 0) 8 push_state
      start_gen (omega arith) refl refl

-- The block of the globals, and a block inside it.
abbrev block : Option ℕ → ℕ → BlockDef
block parent i = record {
  locals = variable b'a' 1 ∷ [];
  parent = parent;
  function = none;
  locals_size = 0;
  bd_index = i;
}

abbrev nested : Tables
nested = record tables { blocks = block none 0 ∷ block (some 0) 1 ∷ [] }

abbrev get_or_zero : Option ℕ → ℕ
get_or_zero none = 0
get_or_zero (some n) = n

abbrev parent_of : Option BlockDef → Option ℕ
parent_of none = none
parent_of (some bd) = bd.parent

nested-ParentsFirst : ParentsFirst nested
nested-ParentsFirst zero p bd e parent = let none_is : none ≡ some p = ap parent_of e ∙ parent in cc
nested-ParentsFirst (suc zero) p bd e parent =
    let zero_is : some 0 ≡ some p = ap parent_of e ∙ parent in
    let same : 0 ≡ p = ap get_or_zero zero_is in omega (arith, same)
nested-ParentsFirst (suc (suc b)) p bd e parent = cc

c_size_block-fuel_example :
    (c_size_block 2 1 nested ≡ c_size_block 9 1 nested)
    × (c_size_block 2 1 nested ≢ err Error.out_of_fuel)
c_size_block-fuel_example =
    c_size_block-fuel nested 2 9 1 nested-ParentsFirst (omega arith) (omega arith)
