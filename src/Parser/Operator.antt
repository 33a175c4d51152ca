-- ===== src/Parser/Operator.antt =====
-- src/parser.c: p_get_operator and p_get_operator_priority.
use rvcc.Prelude.{ℕ, Bool, true, false, List, [], ◌∷◌}
use rvcc.Result.{Result, ok, ◌>>=◌}
use rvcc.Word.{neg32}
use rvcc.Il.{IlOp}
use rvcc.Tables.{Tables}
use rvcc.Lexer.{LToken, Lexed}
use rvcc.Lexer.Calls.{l_accept}

unfoldable pub p_get_operator_priority : IlOp → ℕ
p_get_operator_priority IlOp.log_and = neg32 2
p_get_operator_priority IlOp.log_or = neg32 2
p_get_operator_priority IlOp.equals = neg32 1
p_get_operator_priority IlOp.not_equals = neg32 1
p_get_operator_priority IlOp.less_than = neg32 1
p_get_operator_priority IlOp.less_eq_than = neg32 1
p_get_operator_priority IlOp.greater_than = neg32 1
p_get_operator_priority IlOp.greater_eq_than = neg32 1
p_get_operator_priority IlOp.mul = 1
p_get_operator_priority _ = 0

abbrev pub operators : List (LToken × IlOp)
operators =
    (LToken.plus, IlOp.add)
    ∷ (LToken.minus, IlOp.sub)
    ∷ (LToken.star, IlOp.mul)
    ∷ (LToken.lshift, IlOp.bit_lshift)
    ∷ (LToken.rshift, IlOp.bit_rshift)
    ∷ (LToken.log_and, IlOp.log_and)
    ∷ (LToken.log_or, IlOp.log_or)
    ∷ (LToken.eq, IlOp.equals)
    ∷ (LToken.noteq, IlOp.not_equals)
    ∷ (LToken.lt, IlOp.less_than)
    ∷ (LToken.le, IlOp.less_eq_than)
    ∷ (LToken.gt, IlOp.greater_than)
    ∷ (LToken.ge, IlOp.greater_eq_than)
    ∷ (LToken.ampersand, IlOp.bit_and)
    ∷ (LToken.bit_or, IlOp.bit_or)
    ∷ []

-- The first token of the list that is accepted gives the operator.
unfoldable pub accept_one : List (LToken × IlOp) → Tables → Lexed → Result (IlOp × Lexed)
unfolding l_accept
accept_one [] t l = ok (IlOp.generic, l)
accept_one ((token, op) ∷ pairs) t l = do
  (found, l) ← l_accept token t l
  elim found [ true ↦ ok (op, l) | false ↦ accept_one pairs t l ]

unfoldable pub p_get_operator : Tables → Lexed → Result (IlOp × Lexed)
unfolding accept_one
p_get_operator t l = accept_one operators t l

-- op == op_generic
abbrev pub is_generic : IlOp → Bool
is_generic IlOp.generic = true
is_generic _ = false
