-- ===== src/Tests/Parser.antt =====
-- Numbers and expressions, read.
use rvcc.Prelude.{ℕ, ◌≡◌, refl, false, none, List, [], ◌∷◌, ◌++◌, arith}
use rvcc.Result.{Result, ok, ◌>>=◌}
use rvcc.Il.{IlOp, IlInstr}
use rvcc.Tables.{Tables}
use rvcc.Lexer.{LToken, Lexed}
use rvcc.Lexer.Word.{codes}
use rvcc.Lexer.Calls.{same_token}
use rvcc.Parser.Expression.{Reading, p_read_expression}
use rvcc.Parser.Operand.{p_read_numeric_param}
use rvcc.Parser.Stack.{p_read_expression-limit}
use rvcc.Parser.Left.{GoesOn}
use rvcc.Parser.Fuel.{p_read_expression-GoesOn, p_read_numeric_param-GoesOn}

abbrev no_tables : Tables
no_tables = record {
  types = [];
  functions = [];
  blocks = [];
  il = [];
  aliases = [];
  constants = [];
}

abbrev fresh : ℕ → IlInstr
fresh i = record {
  op = IlOp.generic;
  op_len = 0;
  il_index = 0;
  code_offset = 0;
  param_no = 0;
  int_param1 = 0;
  int_param2 = 0;
  string_param1 = none;
}

abbrev number : ℕ → Reading → Result Reading
unfolding p_read_numeric_param
number = p_read_numeric_param fresh false

-- The token 1, and the source behind it.
abbrev reading : Reading
reading = record {
  tables = no_tables;
  lexed = record {
    token = LToken.numeric;
    token_string = codes "1" ++ 0 ∷ [];
    input = record { next_char = b'+'; behind = codes " 2 * 3 ;" ++ 0 ∷ [] };
  };
}

abbrev short : List IlInstr → List (IlOp × ℕ × ℕ)
short [] = []
short (ii ∷ il) = (ii.op, ii.param_no, ii.int_param1) ∷ short il

-- The product is taken before the sum.
product_first :
    (p_read_expression fresh 10 number 12 0 reading >>= λ r. ok (short r.tables.il))
    ≡ ok (
        (IlOp.load_numeric_constant, 0, 1)
        ∷ (IlOp.load_numeric_constant, 1, 2)
        ∷ (IlOp.push, 0, 0)
        ∷ (IlOp.push, 1, 0)
        ∷ (IlOp.load_numeric_constant, 0, 3)
        ∷ (IlOp.push, 0, 0)
        ∷ (IlOp.pop, 1, 0)
        ∷ (IlOp.pop, 0, 0)
        ∷ (IlOp.mul, 0, 1)
        ∷ (IlOp.push, 0, 0)
        ∷ (IlOp.pop, 1, 0)
        ∷ (IlOp.pop, 0, 0)
        ∷ (IlOp.add, 0, 1)
        ∷ [])
unfolding p_read_expression p_read_numeric_param
product_first = refl

-- The token 0x1F, and the semicolon behind it.
abbrev hexadecimal_token : Reading
hexadecimal_token = record {
  tables = no_tables;
  lexed = record {
    token = LToken.numeric;
    token_string = codes "0x1F" ++ 0 ∷ [];
    input = record { next_char = b';'; behind = 0 ∷ [] };
  };
}

abbrev semicolon_token : Lexed
semicolon_token = record {
  token = LToken.semicolon;
  token_string = 0 ∷ codes "x1F" ++ 0 ∷ [];
  input = record { next_char = 0; behind = [] };
}

p_read_expression-limit_example :
    p_read_expression fresh 10 number 12 0 reading ≡ p_read_expression fresh 4 number 12 0 reading
p_read_expression-limit_example =
    p_read_expression-limit fresh 10 4 number (omega arith) (omega arith) 12 0 reading

p_read_expression-GoesOn_example : GoesOn reading (p_read_expression fresh 10 number 13 0 reading)
unfolding same_token number p_read_numeric_param
p_read_expression-GoesOn_example =
    p_read_expression-GoesOn fresh 10 number (p_read_numeric_param-GoesOn fresh false) 13 0 reading
      (omega arith)
