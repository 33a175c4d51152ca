-- ===== src/Il.antt =====
-- src/defs.c: the intermediate language. A C string is the list of its bytes before the final 0.
use rvcc.Prelude.{ℕ, Bool, true, false, ◌&&◌, Option, none, List, [], ◌∷◌, ◌++◌, ◌==◌, length}

abbrev pub CString : Type 0
CString = List ℕ

-- strcmp(a, b) == 0
unfoldable pub same_string : CString → CString → Bool
same_string [] [] = true
same_string [] (_ ∷ _) = false
same_string (_ ∷ _) [] = false
same_string (a ∷ as') (b ∷ bs) = a == b && same_string as' bs

-- il_op
pub data IlOp : Type 0 where
  generic entry_point load_data_address exit function_call pointer_call exit_point : IlOp
  return jump load_numeric_constant label jz jnz push pop block_start block_end : IlOp
  get_var_addr read_addr write_addr : IlOp
  add sub mul bit_lshift bit_rshift log_and log_or not equals not_equals : IlOp
  less_than less_eq_than greater_than greater_eq_than bit_or bit_and negate : IlOp
  syscall start : IlOp

-- il_instr
pub record IlInstr : Type 0 where
  pub op : IlOp
  pub op_len : ℕ
  pub il_index : ℕ
  pub code_offset : ℕ
  pub param_no : ℕ
  pub int_param1 : ℕ
  pub int_param2 : ℕ
  pub string_param1 : Option CString

-- add_instr and add_generic of src/globals.c: `cell` is what the array holds in the next place.
unfoldable pub add_instr : IlOp → IlInstr → List IlInstr → List IlInstr
add_instr op cell il =
    il ++ record cell { op = op; op_len = 0; string_param1 = none; il_index = length il } ∷ []

unfoldable pub add_generic : ℕ → IlInstr → List IlInstr → List IlInstr
add_generic generic_op cell il =
    il
    ++ record cell { op = IlOp.generic; int_param1 = generic_op; op_len = 0; il_index = length il }
      ∷ []
