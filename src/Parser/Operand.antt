-- ===== src/Parser/Operand.antt =====
-- src/parser.c: p_read_numeric_param, an operand of an expression.
use rvcc.Prelude.{ℕ, Bool, ltb, if◌then◌else◌, length}
use rvcc.Result.{Result, ok, err, ◌>>=◌, Error}
use rvcc.Il.{IlOp, IlInstr, CString, add_instr}
use rvcc.Tables.{Tables}
use rvcc.Lexer.{LToken}
use rvcc.Lexer.Calls.{l_ident}
use rvcc.Parser.Number.{numeric_param_value}
use rvcc.Parser.Expression.{Reading}

abbrev pub max_id_len : ℕ
max_id_len = 64

-- strcpy into an array of MAX_ID_LEN characters
unfoldable pub copy_id : CString → Result CString
copy_id text = if ltb (length text) max_id_len then ok text else err Error.out_of_bounds

module _ (fresh : ℕ → IlInstr) where
  unfoldable pub emit_constant : ℕ → ℕ → Tables → Tables
  unfolding add_instr
  emit_constant param_no value t = record t {
    il =
        add_instr IlOp.load_numeric_constant
          (record (fresh (length t.il)) { param_no = param_no; int_param1 = value }) t.il;
  }

  unfoldable pub p_read_numeric_param : Bool → ℕ → Reading → Result Reading
  unfolding l_ident copy_id numeric_param_value emit_constant
  p_read_numeric_param isneg param_no r = do
    (text, l) ← l_ident LToken.numeric r.tables r.lexed
    token ← copy_id text
    value ← numeric_param_value isneg token
    ok record { tables = emit_constant param_no value r.tables; lexed = l }
