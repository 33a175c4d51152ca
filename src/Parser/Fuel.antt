-- ===== src/Parser/Fuel.antt =====
-- src/parser.c: p_read_expression ends, and does not go back in the source.
use rvcc.Prelude.{
  ℕ, zero, suc, ◌+◌, ◌-◌, ◌*◌, ◌%◌, ◌&&◌, ◌||◌, ◌++◌, ◌≤◌, ◌<◌, ◌≡◌, refl, Bool, false, inl, inr,
  List, [], ◌∷◌, ltb, ◌==◌, if◌then◌else◌, length, arith,
}
use rvcc.Result.{Result, ok, err, ◌>>=◌, Error}
use rvcc.Word.{add32, word_mod}
use rvcc.Il.{IlOp, IlInstr, CString}
use rvcc.Tables.{Tables}
use rvcc.Lexer.{LToken, Lexed}
use rvcc.Lexer.Chars.{is_digit, is_hex}
use rvcc.Lexer.Scan.{c_string}
use rvcc.Parser.Number.{
  is_between, char_int, hex_digit, hex_loop, decimal_loop, unsigned_value, signed_value,
  numeric_param_value,
}
use rvcc.Parser.Operand.{p_read_numeric_param, copy_id}
use rvcc.Lexer.Calls.{l_ident, same_token, advance}
use rvcc.Ends.{Ends, Ends->>=, Ends-if, any-if, Ends-weaken}
use rvcc.Parser.Operator.{p_get_operator, is_generic}
use rvcc.Parser.Expression.{
  Reading, emit_param, emit_operation, apply_earlier, push_operator, read_operators, unwind,
  read_more, p_read_expression,
}
use rvcc.Parser.Left.{
  left, waiting_same, advance-left, Chosen, p_get_operator-Chosen, decide, GoesOn,
}

-- Fuel for every round that is still to come.
abbrev Fits : ℕ → IlOp → Reading → Type 0
Fits fuel op r = (1 ≤ fuel) × ((is_generic op ≡ false) → left r.lexed + 1 < fuel)

module _ (fresh : ℕ → IlInstr) (limit : ℕ) (operand : ℕ → Reading → Result Reading)
    (law : (param_no : ℕ) (r : Reading) → GoesOn r (operand param_no r)) where
  Ends-push_operator :
      (op : IlOp) (stack : List IlOp)
      → Ends (λ _. Unit) (push_operator fresh limit operand op stack)
  unfolding push_operator
  Ends-push_operator op stack = Ends-if (λ _. Unit) (ltb (length stack) limit) _ _ tt tt

  Ends-unwind :
      (param_no : ℕ) (stack : List IlOp) (t : Tables)
      → Ends (λ _. Unit) (unwind fresh param_no stack t)
  unfolding unwind
  Ends-unwind param_no [] t = tt
  Ends-unwind param_no (op ∷ []) t = tt
  Ends-unwind param_no (op ∷ next ∷ stack) t = Ends-unwind param_no (next ∷ stack) _

  Chosen-le : (l : Lexed) (c : IlOp × Lexed) → Chosen l c → left c.1 ≤ left l
  Chosen-le l c (inl (e, b)) = b
  Chosen-le l c (inr b) = omega (arith, b)

  Chosen-fits :
      (n fuel : ℕ) (l : Lexed) (c : IlOp × Lexed)
      → Chosen l c
      → left l ≤ n
      → n + 1 < suc fuel
      → (is_generic c.0 ≡ false)
      → left c.1 + 1 < fuel
  Chosen-fits n fuel l c (inl (e, b)) le h other = cc (e, other)
  Chosen-fits n fuel l c (inr b) le h other = omega (arith, b, le, h)

  read_operators-left :
      (fuel param_no : ℕ) (op : IlOp) (stack : List IlOp) (r : Reading)
      → Fits fuel op r
      → Ends
          (λ s. left s.1.lexed ≤ left r.lexed)
          (read_operators fresh limit operand fuel param_no op stack r)
  unfolding read_operators
  read_operators-left zero param_no op stack r (h, k) = absurd (omega (arith, h))
  read_operators-left (suc fuel) param_no op stack r (h, k) =
      let n = left r.lexed in
      let P : List IlOp × Reading → Type 0 = λ s. left s.1.lexed ≤ n in
      let done = apply_earlier fresh param_no op stack r.tables in
      decide P (is_generic op) (ok (stack, r)) _ (λ e. omega arith)
        λ e.
          Ends->>= (λ _. Unit) P (push_operator fresh limit operand op done.0) _
            (Ends-push_operator op done.0)
            λ stack' _.
              Ends->>= (λ r'. left r'.lexed ≤ n) P
                (operand param_no record { tables = done.1; lexed = r.lexed }) _
                (law param_no record { tables = done.1; lexed = r.lexed })
                λ r' b.
                  Ends->>= (Chosen r'.lexed) P (p_get_operator r'.tables r'.lexed) _
                    (p_get_operator-Chosen r'.tables r'.lexed)
                    λ c chosen.
                      Ends-weaken (λ s. left s.1.lexed ≤ left c.1) P
                        (read_operators fresh limit operand fuel param_no c.0 stack' record {
                          tables = emit_param fresh IlOp.push param_no r'.tables;
                          lexed = c.1;
                        })
                        (read_operators-left fuel param_no c.0 stack'
                          record {
                            tables = emit_param fresh IlOp.push param_no r'.tables;
                            lexed = c.1;
                          }
                          (omega (arith, k e), Chosen-fits n fuel r'.lexed c chosen b (k e)))
                        λ s b'. omega (arith, b, b', Chosen-le r'.lexed c chosen)

  read_more-left :
      (fuel param_no : ℕ) (op next : IlOp) (r : Reading)
      → Fits fuel next r
      → GoesOn r (read_more fresh limit operand fuel param_no op next r)
  unfolding read_more
  read_more-left fuel param_no op next r fits =
      let P : Reading → Type 0 = λ r'. left r'.lexed ≤ left r.lexed in
      let start : Reading = record r {
        tables =
            emit_param fresh IlOp.push (add32 param_no 1)
              (emit_param fresh IlOp.push param_no r.tables);
      } in
      decide P (is_generic next)
        (ok (record r { tables = emit_operation fresh op param_no r.tables })) _ (λ e. omega arith)
        λ e.
          Ends->>= (λ s. left s.1.lexed ≤ left r.lexed) P
            (read_operators fresh limit operand fuel param_no next (op ∷ []) start) _
            (read_operators-left fuel param_no next (op ∷ []) start fits)
            λ s b.
              Ends->>= (λ _. Unit) P (unwind fresh param_no s.0 s.1.tables)
                (λ t. ok (record s.1 { tables = t })) (Ends-unwind param_no s.0 s.1.tables) λ t _. b

  -- Over a reader of operands that never ends for want of fuel and never leaves more to read
  -- than there was, with more fuel than two and what is left to read, the characters behind the
  -- next one and the token that is not t_eof, p_read_expression is such a reader too: it ends
  -- with an error of the source or with no more left to read.
  pub p_read_expression-GoesOn :
      (fuel param_no : ℕ) (r : Reading)
      → left r.lexed + 2 < fuel
      → GoesOn r (p_read_expression fresh limit operand fuel param_no r)
  unfolding p_read_expression
  p_read_expression-GoesOn fuel param_no r h =
      let n = left r.lexed in
      let P : Reading → Type 0 = λ r'. left r'.lexed ≤ n in
      Ends->>= P P (operand param_no r) _ (law param_no r) λ r1 b1.
        Ends->>= (Chosen r1.lexed) P (p_get_operator r1.tables r1.lexed) _
          (p_get_operator-Chosen r1.tables r1.lexed)
          λ c1 chosen1.
            let le1 : left c1.1 ≤ n = omega (arith, b1, Chosen-le r1.lexed c1 chosen1) in
            decide P (is_generic c1.0) (ok record { tables = r1.tables; lexed = c1.1 }) _ (λ e. le1)
              λ e.
                Ends->>= P P
                  (operand (add32 param_no 1) record { tables = r1.tables; lexed = c1.1 }) _
                  (Ends-weaken (λ r'. left r'.lexed ≤ left c1.1) P
                    (operand (add32 param_no 1) record { tables = r1.tables; lexed = c1.1 })
                    (law (add32 param_no 1) record { tables = r1.tables; lexed = c1.1 })
                    λ r' b. omega (arith, b, le1))
                  λ r2 b2.
                    Ends->>= (Chosen r2.lexed) P (p_get_operator r2.tables r2.lexed) _
                      (p_get_operator-Chosen r2.tables r2.lexed)
                      λ c2 chosen2.
                        let start : Reading = record { tables = r2.tables; lexed = c2.1 } in
                        Ends-weaken (λ r'. left r'.lexed ≤ left c2.1) P
                          (read_more fresh limit operand fuel param_no c1.0 c2.0 start)
                          (read_more-left fuel param_no c1.0 c2.0 start (
                            omega (arith, h),
                            λ other. omega (arith, h, b2, Chosen-le r2.lexed c2 chosen2),
                          ))
                          λ r' b. omega (arith, b, b2, Chosen-le r2.lexed c2 chosen2)

Ends-hex_digit : (c : ℕ) → Ends (λ _. Unit) (hex_digit c)
unfolding hex_digit
Ends-hex_digit c =
    any-if (is_between b'0' b'9' c) _ _ tt
      (any-if (is_between b'a' b'f' c) _ _ tt (any-if (is_between b'A' b'F' c) _ _ tt tt))

Ends-hex_loop : (value c : ℕ) (ds : List ℕ) → Ends (λ _. Unit) (hex_loop value c ds)
unfolding hex_loop
Ends-hex_loop value c [] =
    Ends->>= (λ _. Unit) (λ _. Unit) (hex_digit c) _ (Ends-hex_digit c) λ digit _. tt
Ends-hex_loop value c (d ∷ ds) =
    Ends->>= (λ _. Unit) (λ _. Unit) (hex_digit c) _ (Ends-hex_digit c)
      λ digit _.
        decide (λ _. Unit) (is_hex d) (hex_loop (add32 (value * 16 % word_mod) digit) d ds)
          (ok (add32 (value * 16 % word_mod) digit))
          (λ _. Ends-hex_loop (add32 (value * 16 % word_mod) digit) d ds) (λ _. tt)

Ends-decimal_loop : (value c : ℕ) (ds : List ℕ) → Ends (λ _. Unit) (decimal_loop value c ds)
unfolding decimal_loop
Ends-decimal_loop value c [] = tt
Ends-decimal_loop value c (d ∷ ds) =
    let next = add32 (value * 10 % word_mod) (char_int ((c + (256 - b'0')) % 256)) in
    decide (λ _. Unit) (is_digit d) (decimal_loop next d ds) (ok next)
      (λ _. Ends-decimal_loop next d ds) (λ _. tt)

Ends-unsigned_value : (cs : List ℕ) → Ends (λ _. Unit) (unsigned_value cs)
unfolding unsigned_value
Ends-unsigned_value [] = tt
Ends-unsigned_value (a ∷ []) = Ends-decimal_loop 0 a []
Ends-unsigned_value (a ∷ x ∷ []) = Ends-decimal_loop 0 a (x ∷ [])
Ends-unsigned_value (a ∷ x ∷ c ∷ cs) =
    any-if (a == b'0' && (x == b'x' || a == b'X')) _ _ (Ends-hex_loop 0 c cs)
      (Ends-decimal_loop 0 a (x ∷ c ∷ cs))

Ends-signed_value : (isneg : Bool) (cs : List ℕ) → Ends (λ _. Unit) (signed_value isneg cs)
unfolding signed_value
Ends-signed_value isneg [] = tt
Ends-signed_value isneg (a ∷ []) = tt
Ends-signed_value isneg (a ∷ b ∷ cs) =
    Ends->>= (λ _. Unit) (λ _. Unit)
      (if a == b'-' then decimal_loop 0 b cs else unsigned_value (a ∷ b ∷ cs)) _
      (any-if (a == b'-') _ _ (Ends-decimal_loop 0 b cs) (Ends-unsigned_value (a ∷ b ∷ cs)))
      λ v _. tt

-- A number is an operand that goes on.
pub p_read_numeric_param-GoesOn :
    (fresh : ℕ → IlInstr) (isneg : Bool) (param_no : ℕ) (r : Reading)
    → GoesOn r (p_read_numeric_param fresh isneg param_no r)
unfolding p_read_numeric_param l_ident copy_id numeric_param_value same_token
p_read_numeric_param-GoesOn fresh isneg param_no r =
    let P : Reading → Type 0 = λ r'. left r'.lexed ≤ left r.lexed in
    let Q : CString × Lexed → Type 0 = λ s. left s.1 ≤ left r.lexed in
    Ends->>= Q P (l_ident LToken.numeric r.tables r.lexed) _
      (decide Q (same_token r.lexed.token LToken.numeric)
        (advance r.tables r.lexed >>= λ l'. ok (c_string r.lexed.token_string, l'))
        (err Error.unexpected_token)
        (λ e.
          Ends->>= (λ l'. left l' < left r.lexed) Q (advance r.tables r.lexed)
            (λ l'. ok (c_string r.lexed.token_string, l'))
            (advance-left r.tables r.lexed (waiting_same r.lexed.token LToken.numeric e refl))
            λ l' b. omega (arith, b))
        (λ _. tt))
      λ s b.
        Ends->>= (λ _. Unit) P (copy_id s.0) _ (Ends-if (λ _. Unit) (ltb (length s.0) 64) _ _ tt tt)
          λ token _.
            Ends->>= (λ _. Unit) P (numeric_param_value isneg token) _
              (Ends-signed_value isneg (token ++ 0 ∷ [])) λ v _. b
