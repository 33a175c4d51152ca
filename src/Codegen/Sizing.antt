-- ===== src/Codegen/Sizing.antt =====
-- src/codegen.c: c_size_function, c_size_block, c_size_functions and c_calculate_code_length.
use rvcc.Prelude.{
  ℕ, zero, suc, ◌+◌, ◌-◌, Option, none, some, List, [], ◌∷◌, ltb, if◌then◌else◌, length, set,
}
use rvcc.Result.{Result, ok, err, ◌>>=◌, Error}
use rvcc.Word.{add32, sub32, mask32, slt32}
use rvcc.Il.{IlInstr}
use rvcc.Tables.{VariableDef, FunctionDef, Tables, size_variable, at_index}
use rvcc.Buffer.{skip_bytes}
use rvcc.Elf.Defs.{Sections, e_add_symbol}
use rvcc.Backend.Defs.{BackendDef}

-- The loop over the variables of a frame: each is given the end of its place, counted from `base`,
-- and the size grows by the variable's size.
unfoldable pub place_variables : Tables → ℕ → ℕ → List VariableDef → Result (List VariableDef × ℕ)
place_variables t base size [] = ok ([], size)
place_variables t base size (var ∷ vars) = do
  vs ← size_variable var t
  (placed, total) ← place_variables t base (add32 size vs) vars
  ok (record var { offset = add32 (add32 size base) vs } ∷ placed, total)

-- if ((s & 15) > 0) s = (s - (s & 15)) + 16;
unfoldable pub align_16 : ℕ → ℕ
align_16 s = if ltb 0 (mask32 s 16) then add32 (sub32 s (mask32 s 16)) 16 else s

-- The size of a frame, aligned, or the error if an instruction could not hold it.
unfoldable pub frame_size : ℕ → Result ℕ
unfolding align_16
frame_size s =
    if slt32 2047 (align_16 s) then err Error.local_stack_size_exceeded else ok (align_16 s)

unfoldable pub c_size_function : Tables → FunctionDef → Result FunctionDef
unfolding frame_size
c_size_function t fn = do
  (placed, s) ← place_variables t 0 0 fn.param_defs
  size ← frame_size s
  ok (record fn { param_defs = placed; params_size = size })

-- The offset at which a block with no parent starts.
unfoldable pub root_offset : Tables → Option ℕ → Result ℕ
root_offset t none = ok 0
root_offset t (some f) = do fn ← at_index t.functions f; ok fn.params_size

-- The rest of c_size_block, once the offset is known.
unfoldable pub size_locals : ℕ → ℕ → Tables → Result (ℕ × Tables)
unfolding frame_size
size_locals b offset t = do
  bd ← at_index t.blocks b
  (placed, s) ← place_variables t offset 0 bd.locals
  size ← frame_size s
  ok (
    add32 size offset,
    record t { blocks = set t.blocks b (record bd { locals = placed; locals_size = size }) },
  )

-- The recursion follows the chain of parents, which is at most as long as the table.
unfoldable pub c_size_block : ℕ → ℕ → Tables → Result (ℕ × Tables)
unfolding root_offset
c_size_block zero b t = err Error.out_of_fuel
c_size_block (suc fuel) b t = do
  bd ← at_index t.blocks b
  (offset, t') ← elim bd.parent [
    | none ↦ (do start ← root_offset t bd.function; ok (start, t))
    | some p ↦ c_size_block fuel p t
  ]
  size_locals b offset t'

unfoldable pub size_functions : Tables → List FunctionDef → Result (List FunctionDef)
unfolding c_size_function
size_functions t [] = ok []
size_functions t (fn ∷ fns) = do
  sized ← c_size_function t fn
  rest ← size_functions t fns
  ok (sized ∷ rest)

-- for (i = first; ...; i++) c_size_block(&_blocks[i]), over the `count` blocks from `first`.
unfoldable pub size_blocks : ℕ → ℕ → Tables → Result Tables
size_blocks zero first t = ok t
size_blocks (suc count) first t = do
  (_, t') ← c_size_block (suc (length t.blocks)) first t
  size_blocks count (first + 1) t'

-- Globals get their offset in the data section, and a symbol each.
unfoldable pub place_globals :
    Tables → ℕ → List VariableDef → Sections → Result (List VariableDef × Sections)
place_globals t data_start [] s = ok ([], s)
place_globals t data_start (var ∷ vars) s = do
  let here = length s.data_.bytes
  s' ← e_add_symbol var.variable_name (length var.variable_name) (add32 data_start here) s
  vs ← size_variable var t
  (placed, s'') ← place_globals t data_start vars (record s' { data_ = skip_bytes vs s'.data_ })
  ok (record var { offset = here } ∷ placed, s'')

unfoldable pub c_size_functions : ℕ → Tables → Sections → Result (Tables × Sections)
unfolding size_functions size_blocks
c_size_functions data_start t s = do
  functions ← size_functions t t.functions
  t' ← size_blocks (length t.blocks - 1) 1 (record t { functions = functions })
  bd ← at_index t'.blocks 0
  (placed, s') ← place_globals t' data_start bd.locals s
  ok (record t' { blocks = set t'.blocks 0 (record bd { locals = placed }) }, s')

-- The first pass: every instruction gets its place and its length.
unfoldable pub calculate_from : BackendDef → Tables → ℕ → List IlInstr → Result (List IlInstr × ℕ)
calculate_from be t code_len [] = ok ([], code_len)
calculate_from be t code_len (ii ∷ il) = do
  len ← be.c_get_code_length t (record ii { code_offset = code_len })
  (placed, total) ← calculate_from be t (add32 code_len len) il
  ok (record ii { code_offset = code_len; op_len = len } ∷ placed, total)

unfoldable pub c_calculate_code_length : BackendDef → Tables → Result (Tables × ℕ)
c_calculate_code_length be t = do
  (il, code_len) ← calculate_from be t 0 t.il
  ok (record t { il = il }, code_len)
