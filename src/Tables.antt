-- ===== src/Tables.antt =====
-- src/defs.c and src/globals.c: the tables of types, functions, blocks, aliases and constants.
-- A table is the list of its used entries, a pointer into one is the entry's index.
pub mod Add
pub mod Names
pub mod Lookup
pub mod Shape
use rvcc.Prelude.{ℕ, zero, suc, Option, none, some, List, [], ◌∷◌, if◌then◌else◌, length, get_elem?}
use rvcc.Result.{Result, ok, err, ◌>>=◌, Error}
use rvcc.Word.{add32, slt32}
use rvcc.Il.{CString, same_string, IlInstr}

-- base_type
pub data BaseType : Type 0 where
  void int char struct : BaseType

-- variable_def
pub record VariableDef : Type 0 where
  pub type_name : CString
  pub variable_name : CString
  pub is_pointer : ℕ
  pub is_function : ℕ
  pub array_size : ℕ
  pub offset : ℕ

-- function_def: `param_defs` holds the `num_params` parameters in use.
pub record FunctionDef : Type 0 where
  pub return_def : VariableDef
  pub param_defs : List VariableDef
  pub entry_point : ℕ
  pub exit_point : ℕ
  pub params_size : ℕ

-- block_def: `locals` holds the `next_local` variables in use.
pub record BlockDef : Type 0 where
  pub locals : List VariableDef
  pub parent : Option ℕ
  pub function : Option ℕ
  pub locals_size : ℕ
  pub bd_index : ℕ

-- type_def: `fields` holds the `num_fields` fields in use.
pub record TypeDef : Type 0 where
  pub type_name : CString
  pub base_type : BaseType
  pub size : ℕ
  pub fields : List VariableDef

-- alias_def
pub record AliasDef : Type 0 where
  pub alias : CString
  pub value : CString

-- constant_def
pub record ConstantDef : Type 0 where
  pub alias : CString
  pub value : ℕ

pub record Tables : Type 0 where
  pub types : List TypeDef
  pub functions : List FunctionDef
  pub blocks : List BlockDef
  pub il : List IlInstr
  pub aliases : List AliasDef
  pub constants : List ConstantDef

-- The loop of every lookup: the index of the first entry that has the name.
module _ {ℓ} {A : Type ℓ} (name_of : A → CString) (name : CString) where
  unfoldable pub find_by : List A → Option A
  find_by [] = none
  find_by (x ∷ xs) = if same_string (name_of x) name then some x else find_by xs

abbrev pub variable_name_of : VariableDef → CString
variable_name_of v = v.variable_name

abbrev pub function_name_of : FunctionDef → CString
function_name_of f = f.return_def.variable_name

unfoldable pub find_type : CString → Tables → Option TypeDef
unfolding find_by
find_type type_name t = find_by (λ td. td.type_name) type_name t.types

abbrev pub value_of : Option AliasDef → Option CString
value_of none = none
value_of (some al) = some al.value

unfoldable pub find_alias : CString → Tables → Option CString
unfolding find_by
find_alias alias t = value_of (find_by (λ al. al.alias) alias t.aliases)

unfoldable pub find_constant : CString → Tables → Option ConstantDef
unfolding find_by
find_constant alias t = find_by (λ c. c.alias) alias t.constants

unfoldable pub find_function : CString → Tables → Option FunctionDef
unfolding find_by
find_function function_name t = find_by function_name_of function_name t.functions

unfoldable pub find_member : CString → TypeDef → Option VariableDef
unfolding find_by
find_member token type = find_by variable_name_of token type.fields

-- A pointer to an entry, followed: NULL and an index past the end are errors.
abbrev pub in_range {ℓ} : {A : Type ℓ} → Option A → Result A
in_range none = err Error.out_of_bounds
in_range (some x) = ok x

abbrev pub at_index {ℓ} : {A : Type ℓ} → List A → ℕ → Result A
at_index xs i = in_range (get_elem? xs i)

abbrev pub not_null {ℓ} : {A : Type ℓ} → Option A → Result A
not_null none = err Error.null_pointer
not_null (some x) = ok x

-- find_local_variable: the locals of the block and of those around it, then the parameters of the
-- function that the block belongs to. The chain of parents is at most as long as the table.
unfoldable pub find_in_blocks : ℕ → CString → Option ℕ → Tables → Option VariableDef
unfolding find_by
find_in_blocks zero token block t = none
find_in_blocks (suc fuel) token none t = none
find_in_blocks (suc fuel) token (some b) t = elim (get_elem? t.blocks b) [
  | none ↦ none
  | some bd ↦ elim (find_by variable_name_of token bd.locals) [
    | some var ↦ some var
    | none ↦ find_in_blocks fuel token bd.parent t
  ]
]

unfoldable pub find_in_params : CString → Option ℕ → Tables → Option VariableDef
unfolding find_by
find_in_params token none t = none
find_in_params token (some f) t = elim (get_elem? t.functions f) [
  | none ↦ none
  | some fn ↦ find_by variable_name_of token fn.param_defs
]

-- `block->function` is read before the loop: a NULL block is an error.
unfoldable pub find_local_variable : CString → Option ℕ → Tables → Result (Option VariableDef)
unfolding find_in_blocks find_in_params
find_local_variable token block t = do
  b ← not_null block
  bd ← at_index t.blocks b
  ok (elim (find_in_blocks (suc (length t.blocks)) token (some b) t) [
    | some var ↦ some var
    | none ↦ find_in_params token bd.function t
  ])

-- Block 0 holds the globals.
unfoldable pub find_global_variable : CString → Tables → Result (Option VariableDef)
unfolding find_by
find_global_variable token t = do
  block ← at_index t.blocks 0
  ok (find_by variable_name_of token block.locals)

unfoldable pub find_variable : CString → Option ℕ → Tables → Result (Option VariableDef)
unfolding find_local_variable find_global_variable
find_variable token parent t = do
  var ← find_local_variable token parent t
  elim var [ some v ↦ ok (some v) | none ↦ find_global_variable token t ]

-- for (j = 0; j < count; j++) s += bs;
add_times : ℕ → ℕ → ℕ → ℕ
add_times zero bs s = s
add_times (suc count) bs s = add_times count bs (add32 s bs)

unfoldable pub size_variable : VariableDef → Tables → Result ℕ
unfolding add_times find_type
size_variable var t =
    if slt32 0 var.is_pointer then ok 4 else if slt32 0 var.is_function then ok 4 else do
      td ← not_null (find_type var.type_name t)
      ok (if slt32 0 var.array_size then add_times var.array_size td.size 0 else add32 0 td.size)
