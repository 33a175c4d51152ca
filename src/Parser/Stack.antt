-- ===== src/Parser/Stack.antt =====
-- src/parser.c: op_stack of p_read_expression. Its priorities grow from one operator to the next, and
-- there are four of them.
use rvcc.Prelude.{
  ℕ, zero, suc, ◌≤◌, ◌<◌, ◌≡◌, refl, sym, ◌∙◌, ap, Bool, true, false, List, [], ◌∷◌, lt→ltb,
  if◌then◌else◌, length, arith,
}
use rvcc.Result.{Result, ok, err, ◌>>=◌, Error}
use rvcc.Word.{sub32, slt32, add32}
use rvcc.Il.{IlOp, IlInstr}
use rvcc.Tables.{Tables}
use rvcc.Parser.Operator.{p_get_operator_priority, p_get_operator, is_generic}
use rvcc.Parser.Expression.{
  Reading, emit_param, emit_operation, apply_operator, apply_earlier, push_operator, read_operators,
  unwind, read_more, p_read_expression,
}

-- The priority, counted from 0.
abbrev rank : IlOp → ℕ
rank IlOp.log_and = 0
rank IlOp.log_or = 0
rank IlOp.equals = 1
rank IlOp.not_equals = 1
rank IlOp.less_than = 1
rank IlOp.less_eq_than = 1
rank IlOp.greater_than = 1
rank IlOp.greater_eq_than = 1
rank IlOp.mul = 3
rank _ = 2

priority_lem : (op : IlOp) → p_get_operator_priority op ≡ sub32 (rank op) 2
unfolding p_get_operator_priority
priority_lem IlOp.log_and = refl
priority_lem IlOp.log_or = refl
priority_lem IlOp.equals = refl
priority_lem IlOp.not_equals = refl
priority_lem IlOp.less_than = refl
priority_lem IlOp.less_eq_than = refl
priority_lem IlOp.greater_than = refl
priority_lem IlOp.greater_eq_than = refl
priority_lem IlOp.mul = refl
priority_lem _ = refl

rank_bound : (op : IlOp) → rank op < 4
rank_bound IlOp.log_and = omega arith
rank_bound IlOp.log_or = omega arith
rank_bound IlOp.equals = omega arith
rank_bound IlOp.not_equals = omega arith
rank_bound IlOp.less_than = omega arith
rank_bound IlOp.less_eq_than = omega arith
rank_bound IlOp.greater_than = omega arith
rank_bound IlOp.greater_eq_than = omega arith
rank_bound IlOp.mul = omega arith
rank_bound _ = omega arith

slt_ranks : (a b : ℕ) → a < 4 → b < 4 → slt32 (sub32 a 2) (sub32 b 2) ≡ true → a < b
slt_ranks a b ha hb e = ground (arith, ha, hb, e)

earlier_lem :
    (a b : IlOp)
    → slt32 (p_get_operator_priority a) (p_get_operator_priority b) ≡ true
    → rank a < rank b
earlier_lem a b e =
    slt_ranks (rank a) (rank b) (rank_bound a) (rank_bound b)
      (sym (λ i. slt32 (priority_lem a i) (priority_lem b i)) ∙ e)

-- Each operator of the stack comes before the one below it.
abbrev IsOrdered : List IlOp → Type 0
IsOrdered [] = Unit
IsOrdered (op ∷ []) = Unit
IsOrdered (op ∷ below ∷ stack) = (rank below < rank op) × IsOrdered (below ∷ stack)

-- The operators on the stack all come after `op`.
abbrev IsBelow : IlOp → List IlOp → Type 0
IsBelow op [] = Unit
IsBelow op (top ∷ stack) = rank top < rank op

IsOrdered-cons :
    (op : IlOp) (stack : List IlOp) → IsBelow op stack → IsOrdered stack → IsOrdered (op ∷ stack)
IsOrdered-cons op [] b o = tt
IsOrdered-cons op (top ∷ stack) b o = (b, o)

IsOrdered-tail : (op : IlOp) (stack : List IlOp) → IsOrdered (op ∷ stack) → IsOrdered stack
IsOrdered-tail op [] o = tt
IsOrdered-tail op (below ∷ stack) (b, o) = o

length-IsOrdered : (op : IlOp) (stack : List IlOp) → IsOrdered (op ∷ stack) → length stack ≤ rank op
length-IsOrdered op [] o = omega arith
length-IsOrdered op (below ∷ stack) (b, o) = omega (arith, b, length-IsOrdered below stack o)

pub by_bool :
    {A : Type 0} (P : A → Type 0) (b : Bool) (x y : A)
    → (b ≡ true → P x)
    → P y
    → P (elim b [ true ↦ x | false ↦ y ])
by_bool P true x y hx hy = hx refl
by_bool P false x y hx hy = hy

-- The stack is in order, and an operator can go on top.
abbrev CanTake : IlOp → List IlOp × Tables → Type 0
CanTake op done = IsOrdered done.0 × IsBelow op done.0

module _ (fresh : ℕ → IlInstr) where
  -- What is left on the stack comes after the next operator.
  apply_earlier-CanTake :
      (param_no : ℕ) (op : IlOp) (stack : List IlOp) (t : Tables)
      → IsOrdered stack
      → CanTake op (apply_earlier fresh param_no op stack t)
  unfolding apply_earlier
  apply_earlier-CanTake param_no op [] t o = (tt, tt)
  apply_earlier-CanTake param_no op (top ∷ stack) t o =
      let t' = emit_param fresh IlOp.push param_no (apply_operator fresh param_no top t) in
      by_bool (CanTake op) (slt32 (p_get_operator_priority top) (p_get_operator_priority op))
        (top ∷ stack, t) (apply_earlier fresh param_no op stack t') (λ e. (o, earlier_lem top op e))
        (apply_earlier-CanTake param_no op stack t' (IsOrdered-tail top stack o))

pushed :
    (limit : ℕ) (operand : ℕ → Reading → Result Reading) (fresh : ℕ → IlInstr) (op : IlOp)
    (stack : List IlOp)
    → 4 ≤ limit
    → IsOrdered (op ∷ stack)
    → push_operator fresh limit operand op stack ≡ ok (op ∷ stack)
unfolding push_operator
pushed limit operand fresh op stack h o =
    let room : length stack < limit =
      omega (arith, h, length-IsOrdered op stack o, rank_bound op) in
    ap (λ b. if b then ok (op ∷ stack) else err Error.out_of_bounds)
      (lt→ltb (length stack) limit room)

module _ (fresh : ℕ → IlInstr) (limit limit' : ℕ) (operand : ℕ → Reading → Result Reading)
    (h : 4 ≤ limit) (h' : 4 ≤ limit') where
  read_operators-limit :
      (fuel param_no : ℕ) (op : IlOp) (stack : List IlOp) (r : Reading)
      → IsOrdered stack
      → read_operators fresh limit operand fuel param_no op stack r
        ≡ read_operators fresh limit' operand fuel param_no op stack r
  unfolding read_operators
  read_operators-limit zero param_no op stack r o = refl
  read_operators-limit (suc fuel) param_no op stack r o =
      let done = apply_earlier fresh param_no op stack r.tables in
      let (ordered, below) = apply_earlier-CanTake fresh param_no op stack r.tables o in
      let ready = IsOrdered-cons op done.0 below ordered in
      let rest : ℕ → List IlOp → Result (List IlOp × Reading) = λ places stack.
        operand param_no record { tables = done.1; lexed = r.lexed } >>= λ r.
        p_get_operator r.tables r.lexed >>= λ (next, l).
        read_operators fresh places operand fuel param_no next stack
          record { tables = emit_param fresh IlOp.push param_no r.tables; lexed = l } in
      let same : push_operator fresh limit operand op done.0 >>= rest limit
          ≡ push_operator fresh limit' operand op done.0 >>= rest limit' =
        ap (λ pushes. pushes >>= rest limit) (pushed limit operand fresh op done.0 h ready)
        ∙ (λ i. operand param_no record { tables = done.1; lexed = r.lexed } >>= λ r.
            p_get_operator r.tables r.lexed >>= λ (next, l).
            read_operators-limit fuel param_no next (op ∷ done.0)
              record { tables = emit_param fresh IlOp.push param_no r.tables; lexed = l } ready i)
        ∙ ap (λ pushes. pushes >>= rest limit')
            (sym (pushed limit' operand fresh op done.0 h' ready)) in
      λ i. elim (is_generic op) [ true ↦ ok (stack, r) | false ↦ same i ]

  read_more-limit :
      (fuel param_no : ℕ) (op next : IlOp) (r : Reading)
      → read_more fresh limit operand fuel param_no op next r
        ≡ read_more fresh limit' operand fuel param_no op next r
  unfolding read_more
  read_more-limit fuel param_no op next r =
      let start : Reading = record r {
        tables =
            emit_param fresh IlOp.push (add32 param_no 1)
              (emit_param fresh IlOp.push param_no r.tables);
      } in
      λ i. elim (is_generic next) [
        | true ↦ ok (record r { tables = emit_operation fresh op param_no r.tables })
        | false ↦ read_operators-limit fuel param_no next (op ∷ []) start tt i >>= λ (stack, r).
            unwind fresh param_no stack r.tables >>= λ t. ok (record r { tables = t })
      ]

  -- The operator stack of p_read_expression never holds more than four operators: whatever reads
  -- the operands, with any two numbers of places in op_stack from four on, the results are
  -- equal, so the ten places of the source are never exceeded.
  pub p_read_expression-limit :
      (fuel param_no : ℕ) (r : Reading)
      → p_read_expression fresh limit operand fuel param_no r
        ≡ p_read_expression fresh limit' operand fuel param_no r
  unfolding p_read_expression
  p_read_expression-limit fuel param_no r = λ i. operand param_no r >>= λ r.
      p_get_operator r.tables r.lexed >>= λ (op, l). elim (is_generic op) [
        | true ↦ ok record { tables = r.tables; lexed = l }
        | false ↦ operand (add32 param_no 1) record { tables = r.tables; lexed = l } >>= λ r.
            p_get_operator r.tables r.lexed >>= λ (next, l).
            read_more-limit fuel param_no op next record { tables = r.tables; lexed = l } i
      ]
