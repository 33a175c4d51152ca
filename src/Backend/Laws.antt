-- ===== src/Backend/Laws.antt =====
-- What the code generator relies on: an operation of a backend writes as many bytes as
-- c_get_code_length has said.
use rvcc.Prelude.{ℕ, ◌+◌, ◌*◌, ◌≡◌, true, false, some, ltb, length}
use rvcc.Result.{ok}
use rvcc.Word.{IsWord}
use rvcc.Il.{CString, IlOp, IlInstr}
use rvcc.Tables.{FunctionDef, BlockDef, Tables, find_function, at_index}
use rvcc.Tables.Shape.{SameShape}
use rvcc.Buffer.Writes.{Emits}
use rvcc.Backend.Defs.{BackendState, BackendDef}

-- The operations that c_generate hands to op_alu, op_cmp, op_log, op_bit and op_jz.
abbrev pub IsAlu : IlOp → Type 0
IsAlu IlOp.add = Unit
IsAlu IlOp.sub = Unit
IsAlu IlOp.mul = Unit
IsAlu IlOp.negate = Unit
IsAlu _ = ⊥

abbrev pub IsCmp : IlOp → Type 0
IsCmp IlOp.equals = Unit
IsCmp IlOp.not_equals = Unit
IsCmp IlOp.less_than = Unit
IsCmp IlOp.less_eq_than = Unit
IsCmp IlOp.greater_than = Unit
IsCmp IlOp.greater_eq_than = Unit
IsCmp _ = ⊥

abbrev pub IsLog : IlOp → Type 0
IsLog IlOp.log_and = Unit
IsLog IlOp.log_or = Unit
IsLog _ = ⊥

abbrev pub IsBit : IlOp → Type 0
IsBit IlOp.bit_and = Unit
IsBit IlOp.bit_or = Unit
IsBit IlOp.bit_lshift = Unit
IsBit IlOp.bit_rshift = Unit
IsBit IlOp.not = Unit
IsBit _ = ⊥

abbrev pub IsJz : IlOp → Type 0
IsJz IlOp.jz = Unit
IsJz IlOp.jnz = Unit
IsJz _ = ⊥

-- The length of the instruction `ii`, were its operation `op`.
abbrev pub Length : BackendDef → IlOp → Tables → IlInstr → ℕ → Type 0
Length be op t ii n = be.c_get_code_length t (record ii { op = op }) ≡ ok n

pub record BackendLaws (be : BackendDef) : Type 0 where
  -- A length depends on nothing that the passes change.
  pub stable :
      (t t' : Tables) (ii : IlInstr)
      → SameShape t t'
      → be.c_get_code_length t ii ≡ be.c_get_code_length t' ii
  pub unplaced :
      (t : Tables) (ii : IlInstr) (offset len : ℕ)
      → be.c_get_code_length t (record ii { code_offset = offset; op_len = len })
        ≡ be.c_get_code_length t (record ii { code_offset = offset })
  pub load_data_address :
      (t : Tables) (ii : IlInstr) (n : ℕ) (state : BackendState) (ofs : ℕ)
      → Length be IlOp.load_data_address t ii n
      → Emits n (be.op_load_data_address state ofs)
  pub load_numeric_constant :
      (t : Tables) (ii : IlInstr) (n : ℕ) (state : BackendState)
      → Length be IlOp.load_numeric_constant t ii n
      → Emits n (be.op_load_numeric_constant state ii.int_param1)
  pub get_global_addr :
      (t : Tables) (ii : IlInstr) (n : ℕ) (state : BackendState) (ofs : ℕ)
      → Length be IlOp.get_var_addr t ii n
      → Emits n (be.op_get_global_addr state ofs)
  pub get_local_addr :
      (t : Tables) (ii : IlInstr) (n : ℕ) (state : BackendState) (ofs : ℕ)
      → Length be IlOp.get_var_addr t ii n
      → Emits n (be.op_get_local_addr state ofs)
  pub get_function_addr :
      (t : Tables) (ii : IlInstr) (n : ℕ) (state : BackendState) (ofs : ℕ)
      → Length be IlOp.get_var_addr t ii n
      → Emits n (be.op_get_function_addr state ofs)
  pub read_addr :
      (t : Tables) (ii : IlInstr) (n : ℕ) (state : BackendState) (len : ℕ)
      → Length be IlOp.read_addr t ii n
      → Emits n (be.op_read_addr state len)
  pub write_addr :
      (t : Tables) (ii : IlInstr) (n : ℕ) (state : BackendState) (len : ℕ)
      → Length be IlOp.write_addr t ii n
      → Emits n (be.op_write_addr state len)
  pub jump :
      (t : Tables) (ii : IlInstr) (n ofs : ℕ)
      → Length be IlOp.jump t ii n
      → Emits n (be.op_jump ofs)
  pub return :
      (t : Tables) (ii : IlInstr) (n ofs : ℕ)
      → Length be IlOp.return t ii n
      → Emits n (be.op_return ofs)
  pub function_call :
      (t : Tables) (ii : IlInstr) (n : ℕ) (state : BackendState) (ofs : ℕ)
      → IsWord ii.param_no
      → state.dest_reg ≡ be.c_dest_reg ii.param_no
      → Length be IlOp.function_call t ii n
      → Emits n (be.op_function_call state ofs)
  pub pointer_call :
      (t : Tables) (ii : IlInstr) (n : ℕ) (state : BackendState)
      → IsWord ii.param_no
      → state.dest_reg ≡ be.c_dest_reg ii.param_no
      → Length be IlOp.pointer_call t ii n
      → Emits n (be.op_pointer_call state)
  pub push :
      (t : Tables) (ii : IlInstr) (n : ℕ) (state : BackendState)
      → Length be IlOp.push t ii n
      → Emits n (be.op_push state)
  pub pop :
      (t : Tables) (ii : IlInstr) (n : ℕ) (state : BackendState)
      → Length be IlOp.pop t ii n
      → Emits n (be.op_pop state)
  pub exit_point :
      (t : Tables) (ii : IlInstr) (n : ℕ)
      → Length be IlOp.exit_point t ii n
      → Emits n be.op_exit_point
  pub alu :
      (op : IlOp) (t : Tables) (ii : IlInstr) (n : ℕ) (state : BackendState)
      → IsAlu op
      → Length be op t ii n
      → Emits n (be.op_alu state op)
  pub cmp :
      (op : IlOp) (t : Tables) (ii : IlInstr) (n : ℕ) (state : BackendState)
      → IsCmp op
      → Length be op t ii n
      → Emits n (be.op_cmp state op)
  pub log :
      (op : IlOp) (t : Tables) (ii : IlInstr) (n : ℕ) (state : BackendState)
      → IsLog op
      → Length be op t ii n
      → Emits n (be.op_log state op)
  pub bit :
      (op : IlOp) (t : Tables) (ii : IlInstr) (n : ℕ) (state : BackendState)
      → IsBit op
      → Length be op t ii n
      → Emits n (be.op_bit state op)
  pub jz :
      (op : IlOp) (t : Tables) (ii : IlInstr) (n : ℕ) (state : BackendState) (ofs : ℕ)
      → IsJz op
      → Length be op t ii n
      → Emits n (be.op_jz state op ofs)
  pub label : (t : Tables) (ii : IlInstr) (n : ℕ) → Length be IlOp.label t ii n → n ≡ 0
  pub generic : (t : Tables) (ii : IlInstr) (n : ℕ) → Length be IlOp.generic t ii n → n ≡ 4
  -- A block takes an instruction at each end where it has locals, and none where it has not.
  pub block_start :
      (t : Tables) (ii : IlInstr) (n : ℕ) (bd : BlockDef)
      → at_index t.blocks ii.int_param1 ≡ ok bd
      → Length be IlOp.block_start t ii n
      → ((len : ℕ) → ltb 0 (length bd.locals) ≡ true → Emits n (be.op_block len))
        × (ltb 0 (length bd.locals) ≡ false → n ≡ 0)
  pub block_end :
      (t : Tables) (ii : IlInstr) (n : ℕ) (bd : BlockDef)
      → at_index t.blocks ii.int_param1 ≡ ok bd
      → Length be IlOp.block_end t ii n
      → ((len : ℕ) → ltb 0 (length bd.locals) ≡ true → Emits n (be.op_block len))
        × (ltb 0 (length bd.locals) ≡ false → n ≡ 0)
  -- An entry point has a fixed part and a part for each parameter.
  pub fixed_part : ℕ
  pub param_part : ℕ
  pub fixed_part-Emits : (size : ℕ) → Emits fixed_part (be.op_entry_point size)
  pub param_part-Emits : (pn ofs : ℕ) → Emits param_part (be.op_store_param pn ofs)
  pub entry_point :
      (t : Tables) (ii : IlInstr) (n : ℕ) (name : CString) (fn : FunctionDef)
      → ii.string_param1 ≡ some name
      → find_function name t ≡ some fn
      → Length be IlOp.entry_point t ii n
      → n ≡ fixed_part + length fn.param_defs * param_part
  pub start :
      (t : Tables) (ii : IlInstr) (n : ℕ) → Length be IlOp.start t ii n → Emits n be.op_start
  pub syscall :
      (t : Tables) (ii : IlInstr) (n : ℕ) → Length be IlOp.syscall t ii n → Emits n be.op_syscall
  pub exit : (t : Tables) (ii : IlInstr) (n : ℕ) → Length be IlOp.exit t ii n → Emits n be.op_exit
