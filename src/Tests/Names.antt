-- ===== src/Tests/Names.antt =====
-- A table of one function, one alias and one constant.
use rvcc.Prelude.{◌≡◌, refl, none, some, [], ◌∷◌, get_elem?, if◌then◌else◌}
use rvcc.Result.{ok}
use rvcc.Il.{CString, same_string}
use rvcc.Tables.{FunctionDef, Tables, find_function, find_alias, find_constant, function_name_of}
use rvcc.Tables.Add.{
  strcpy, append_entry, index_by, append_function, add_function, add_alias, add_constant,
}
use rvcc.Tables.Names.{or_else}
use rvcc.Tables.Lookup.{
  add_function-found, add_function-twice, add_function-others, constant_value, find_alias-add_alias,
  find_constant-add_constant,
}

abbrev name : CString
name = b'f' ∷ []

abbrev other : CString
other = b'g' ∷ []

abbrev fresh : FunctionDef
fresh = record {
  return_def = record {
    type_name = [];
    variable_name = [];
    is_pointer = 0;
    is_function = 0;
    array_size = 0;
    offset = 0;
  };
  param_defs = [];
  entry_point = 0;
  exit_point = 0;
  params_size = 0;
}

abbrev empty_tables : Tables
empty_tables = record {
  types = [];
  functions = [];
  blocks = [];
  il = [];
  aliases = [];
  constants = [];
}

abbrev with_f : Tables
with_f = record empty_tables {
  functions = record fresh { return_def = record fresh.return_def { variable_name = name } } ∷ [];
}

add_function-found_example :
    (fn : FunctionDef) × (get_elem? with_f.functions 0 ≡ some fn)
    × (find_function name with_f ≡ some fn)
    × (function_name_of fn ≡ name)
unfolding add_function append_function index_by strcpy append_entry
add_function-found_example = add_function-found name fresh empty_tables 0 with_f refl

add_function-twice_example : add_function name fresh with_f ≡ ok (0, with_f)
unfolding add_function append_function index_by strcpy append_entry
add_function-twice_example = add_function-twice name fresh fresh empty_tables 0 with_f refl

add_function-others_example : find_function other with_f ≡ find_function other empty_tables
unfolding add_function append_function index_by strcpy append_entry same_string
add_function-others_example = add_function-others name other fresh empty_tables 0 with_f refl refl

abbrev with_alias : Tables
with_alias = record empty_tables { aliases = record { alias = name; value = other } ∷ [] }

find_alias-add_alias_example :
    find_alias name with_alias
    ≡ or_else (find_alias name empty_tables) (if same_string name name then some other else none)
unfolding add_alias strcpy append_entry
find_alias-add_alias_example =
    find_alias-add_alias name other name (record { alias = []; value = [] }) empty_tables with_alias
      refl

abbrev with_constant : Tables
with_constant = record empty_tables { constants = record { alias = name; value = 5 } ∷ [] }

find_constant-add_constant_example :
    constant_value (find_constant name with_constant)
    ≡ or_else
        (constant_value (find_constant name empty_tables))
        (if same_string name name then some 5 else none)
unfolding add_constant strcpy append_entry
find_constant-add_constant_example =
    find_constant-add_constant name 5 name (record { alias = []; value = 0 }) empty_tables
      with_constant refl
