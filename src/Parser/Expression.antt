-- ===== src/Parser/Expression.antt =====
-- src/parser.c: p_read_expression, over the reader of operands that it calls.
use rvcc.Prelude.{ℕ, zero, suc, true, false, List, [], ◌∷◌, ltb, if◌then◌else◌, length}
use rvcc.Result.{Result, ok, err, ◌>>=◌, Error}
use rvcc.Word.{add32, slt32}
use rvcc.Il.{IlOp, IlInstr, add_instr}
use rvcc.Tables.{Tables}
use rvcc.Lexer.{Lexed}
use rvcc.Parser.Operator.{p_get_operator_priority, p_get_operator, is_generic}

pub record Reading : Type 0 where
  pub tables : Tables
  pub lexed : Lexed

-- `fresh` is what the array of instructions holds at an index that is not used yet.
module _ (fresh : ℕ → IlInstr) where
  -- il = add_instr(op); il->param_no = param_no;
  unfoldable pub emit_param : IlOp → ℕ → Tables → Tables
  unfolding add_instr
  emit_param op param_no t = record t {
    il = add_instr op (record (fresh (length t.il)) { param_no = param_no }) t.il;
  }

  -- il->int_param1 = param_no + 1; besides
  unfoldable pub emit_operation : IlOp → ℕ → Tables → Tables
  unfolding add_instr
  emit_operation op param_no t = record t {
    il =
        add_instr op
          (record (fresh (length t.il)) { param_no = param_no; int_param1 = add32 param_no 1 })
          t.il;
  }

  -- Both values from the stack, and the operator on them.
  unfoldable pub apply_operator : ℕ → IlOp → Tables → Tables
  unfolding emit_param emit_operation
  apply_operator param_no stack_op t =
      emit_operation stack_op param_no
        (emit_param IlOp.pop param_no (emit_param IlOp.pop (add32 param_no 1) t))

  -- The loop over the operators on the stack that come before the next one.
  unfoldable pub apply_earlier : ℕ → IlOp → List IlOp → Tables → List IlOp × Tables
  unfolding apply_operator p_get_operator_priority
  apply_earlier param_no op [] t = ([], t)
  apply_earlier param_no op (stack_op ∷ stack) t =
      elim (slt32 (p_get_operator_priority stack_op) (p_get_operator_priority op)) [
        | true ↦ (stack_op ∷ stack, t)
        | false ↦
            apply_earlier param_no op stack
              (emit_param IlOp.push param_no (apply_operator param_no stack_op t))
      ]

  -- The operators that are left, and the value of the last one stays in its register.
  unfoldable pub unwind : ℕ → List IlOp → Tables → Result Tables
  unfolding apply_operator emit_param
  unwind param_no [] t = err Error.unexpected_end_of_expression
  unwind param_no (stack_op ∷ []) t = ok (apply_operator param_no stack_op t)
  unwind param_no (stack_op ∷ next ∷ stack) t =
      unwind param_no (next ∷ stack)
        (emit_param IlOp.push param_no (apply_operator param_no stack_op t))

-- `limit` is the number of places of op_stack, and `operand` is p_read_expression_operand for the
-- block.
module _ (fresh : ℕ → IlInstr) (limit : ℕ) (operand : ℕ → Reading → Result Reading) where
  -- op_stack[op_stack_idx++] = op
  unfoldable pub push_operator : IlOp → List IlOp → Result (List IlOp)
  push_operator op stack =
      if ltb (length stack) limit then ok (op ∷ stack) else err Error.out_of_bounds

  -- while (op != op_generic), for at most `fuel` rounds
  unfoldable pub read_operators : ℕ → ℕ → IlOp → List IlOp → Reading → Result (List IlOp × Reading)
  unfolding apply_earlier push_operator emit_param p_get_operator
  read_operators zero param_no op stack r = err Error.out_of_fuel
  read_operators (suc fuel) param_no op stack r = elim (is_generic op) [
    | true ↦ ok (stack, r)
    | false ↦ do
      let done = apply_earlier fresh param_no op stack r.tables
      stack ← push_operator op done.0
      r ← operand param_no record { tables = done.1; lexed = r.lexed }
      (next, l) ← p_get_operator r.tables r.lexed
      read_operators fuel param_no next stack
          record { tables = emit_param fresh IlOp.push param_no r.tables; lexed = l }
  ]

  -- Behind the second operand.
  unfoldable pub read_more : ℕ → ℕ → IlOp → IlOp → Reading → Result Reading
  unfolding emit_operation emit_param read_operators unwind
  read_more fuel param_no op next r = elim (is_generic next) [
    | true ↦ ok (record r { tables = emit_operation fresh op param_no r.tables })
    | false ↦ do
      (stack, r) ← read_operators fuel param_no next (op ∷ []) (record r {
        tables =
            emit_param fresh IlOp.push (add32 param_no 1)
              (emit_param fresh IlOp.push param_no r.tables);
      })
      t ← unwind fresh param_no stack r.tables
      ok (record r { tables = t })
  ]

  unfoldable pub p_read_expression : ℕ → ℕ → Reading → Result Reading
  unfolding p_get_operator read_more
  p_read_expression fuel param_no r = do
    r ← operand param_no r
    (op, l) ← p_get_operator r.tables r.lexed
    elim (is_generic op) [
      | true ↦ ok record { tables = r.tables; lexed = l }
      | false ↦ do
        r ← operand (add32 param_no 1) record { tables = r.tables; lexed = l }
        (next, l) ← p_get_operator r.tables r.lexed
        read_more fuel param_no op next record { tables = r.tables; lexed = l }
    ]
