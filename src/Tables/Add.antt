-- ===== src/Tables/Add.antt =====
-- src/globals.c: the operations that add to the tables. `cell` is what the array holds in the place
-- that the operation fills, since the arrays are allocated and not cleared.
use rvcc.Prelude.{ℕ, suc, Option, none, some, List, [], ◌∷◌, ◌++◌, ltb, if◌then◌else◌, length}
use rvcc.Result.{Result, ok, err, ◌>>=◌, Error}
use rvcc.Il.{CString, same_string}
use rvcc.Tables.{FunctionDef, BlockDef, TypeDef, AliasDef, ConstantDef, Tables, function_name_of}

-- MAX_VAR_LEN and MAX_TYPE_LEN, which are the same
abbrev pub max_var_len : ℕ
max_var_len = 64

abbrev pub max_functions : ℕ
max_functions = 1024

abbrev pub max_blocks : ℕ
max_blocks = 1048576

abbrev pub max_types : ℕ
max_types = 64

abbrev pub max_aliases : ℕ
max_aliases = 1024

abbrev pub max_constants : ℕ
max_constants = 1024

-- strcpy into an array of `max_var_len` characters, the final 0 included.
unfoldable pub strcpy : CString → Result CString
strcpy s = if ltb (length s) max_var_len then ok s else err Error.out_of_bounds

-- &table[idx++], with the entry written.
unfoldable pub append_entry {ℓ} : {A : Type ℓ} → ℕ → A → List A → Result (List A)
append_entry max entry table =
    if ltb (length table) max then ok (table ++ entry ∷ []) else err Error.out_of_bounds

-- The loop of add_function: the place of the first function with the name.
module _ {ℓ} {A : Type ℓ} (name_of : A → CString) (name : CString) where
  unfoldable pub index_by : ℕ → List A → Option ℕ
  index_by i [] = none
  index_by i (x ∷ xs) = if same_string (name_of x) name then some i else index_by (suc i) xs

-- What add_function does behind its loop.
unfoldable pub append_function : CString → FunctionDef → Tables → Result (ℕ × Tables)
unfolding strcpy append_entry
append_function name cell t = do
  variable_name ← strcpy name
  functions ←
      append_entry max_functions
        (record cell { return_def = record cell.return_def { variable_name = variable_name } })
        t.functions
  ok (length t.functions, record t { functions = functions })

-- return existing if found
abbrev pub found_or_append : Option ℕ → CString → FunctionDef → Tables → Result (ℕ × Tables)
found_or_append (some i) name cell t = ok (i, t)
found_or_append none name cell t = append_function name cell t

unfoldable pub add_function : CString → FunctionDef → Tables → Result (ℕ × Tables)
unfolding index_by
add_function name cell t =
    found_or_append (index_by function_name_of name 0 t.functions) name cell t

unfoldable pub add_block : Option ℕ → Option ℕ → BlockDef → Tables → Result (ℕ × Tables)
unfolding append_entry
add_block parent function cell t = do
  blocks ←
      append_entry max_blocks
        (record cell {
          bd_index = length t.blocks;
          parent = parent;
          function = function;
          locals = [];
        })
        t.blocks
  ok (length t.blocks, record t { blocks = blocks })

unfoldable pub add_alias : CString → CString → AliasDef → Tables → Result Tables
unfolding strcpy append_entry
add_alias alias value cell t = do
  copied_alias ← strcpy alias
  copied_value ← strcpy value
  aliases ←
      append_entry max_aliases (record cell { alias = copied_alias; value = copied_value })
        t.aliases
  ok (record t { aliases = aliases })

unfoldable pub add_type : TypeDef → Tables → Result (ℕ × Tables)
unfolding append_entry
add_type cell t = do
  types ← append_entry max_types cell t.types
  ok (length t.types, record t { types = types })

unfoldable pub add_named_type : CString → TypeDef → Tables → Result (ℕ × Tables)
unfolding strcpy add_type
add_named_type name cell t = do
  type_name ← strcpy name
  add_type (record cell { type_name = type_name }) t

unfoldable pub add_constant : CString → ℕ → ConstantDef → Tables → Result Tables
unfolding strcpy append_entry
add_constant alias value cell t = do
  copied ← strcpy alias
  constants ← append_entry max_constants (record cell { alias = copied; value = value }) t.constants
  ok (record t { constants = constants })
