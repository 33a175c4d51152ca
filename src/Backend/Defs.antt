-- ===== src/Backend/Defs.antt =====
-- src/defs.c: backend_state and backend_def.
use rvcc.Prelude.{ℕ}
use rvcc.Result.{Result}
use rvcc.Il.{CString, IlOp, IlInstr}
use rvcc.Tables.{Tables}
use rvcc.Buffer.{Emit}

-- arch_t
pub data Arch : Type 0 where
  riscv arm : Arch

-- backend_state
pub record BackendState : Type 0 where
  pub code_start : ℕ
  pub data_start : ℕ
  pub dest_reg : ℕ
  pub op_reg : ℕ
  pub pc : ℕ

-- backend_def: a record of function pointers in the source too.
pub record BackendDef : Type 0 where
  pub arch : Arch
  pub source_define : CString
  pub elf_machine : ℕ
  pub elf_flags : ℕ
  pub c_dest_reg : ℕ → ℕ
  pub c_get_code_length : Tables → IlInstr → Result ℕ
  pub op_load_data_address : BackendState → ℕ → Emit
  pub op_load_numeric_constant : BackendState → ℕ → Emit
  pub op_get_global_addr : BackendState → ℕ → Emit
  pub op_get_local_addr : BackendState → ℕ → Emit
  pub op_get_function_addr : BackendState → ℕ → Emit
  pub op_read_addr : BackendState → ℕ → Emit
  pub op_write_addr : BackendState → ℕ → Emit
  pub op_jump : ℕ → Emit
  pub op_return : ℕ → Emit
  pub op_function_call : BackendState → ℕ → Emit
  pub op_pointer_call : BackendState → Emit
  pub op_push : BackendState → Emit
  pub op_pop : BackendState → Emit
  pub op_exit_point : Emit
  pub op_alu : BackendState → IlOp → Emit
  pub op_cmp : BackendState → IlOp → Emit
  pub op_log : BackendState → IlOp → Emit
  pub op_bit : BackendState → IlOp → Emit
  pub op_jz : BackendState → IlOp → ℕ → Emit
  pub op_block : ℕ → Emit
  pub op_entry_point : ℕ → Emit
  pub op_store_param : ℕ → ℕ → Emit
  pub op_start : Emit
  pub op_syscall : Emit
  pub op_exit : Emit
